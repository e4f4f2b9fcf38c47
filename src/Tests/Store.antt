-- ===== src/Tests/Store.antt =====
-- The theorems on the store at a queued and a running run.
use lexicode.Prelude.{count_where, arith, ◌≤◌, ◌≡◌, refl, true, [], ◌∷◌, ok, err}
use lexicode.Domain.RunState.{RunState}
use lexicode.Domain.Rows.{UsageDelta}
use lexicode.Store.Db.{not_found}
use lexicode.Store.Runs.{no_update, by_id, set_state, null_if}
use lexicode.Store.Runs.{is_run}
use lexicode.Store.Db.{Db}
use lexicode.Tests.Sample.{with_runs}
use lexicode.Store.Queries.{latest_on_subject, active_on_subject}
use lexicode.Store.Budget.{is_cell, project_day}
use lexicode.Tests.Sample.{a_run, two_runs}

writes : (set_state two_runs 1 (RunState.queued ∷ []) RunState.provisioning no_update).1 ≡ ok true
unfolding set_state
writes = refl

rereads :
    by_id (set_state two_runs 1 (RunState.queued ∷ []) RunState.provisioning no_update).0 1
    ≡ ok (a_run 1 RunState.provisioning)
unfolding set_state by_id
rereads = refl

finds : by_id two_runs 1 ≡ ok (a_run 1 RunState.queued)
unfolding by_id
finds = refl

abbrev a_delta : UsageDelta
a_delta = record {
  tokens_in = 10;
  tokens_out = 2;
  tokens_cache_read = 3;
  tokens_cache_write = 0;
  cost_cents = 1;
}

none_since : latest_on_subject two_runs 5 900 2000 ≡ err not_found
unfolding latest_on_subject
none_since = refl

finds_live : active_on_subject two_runs 5 900 ≡ ok (a_run 2 RunState.running)
unfolding active_on_subject
finds_live = refl

one_cell : count_where (is_cell 4 1 (null_if 7) (null_if 5)) two_runs.ledger ≤ 1
unfolding is_cell count_where
one_cell = omega arith

reads_spend : project_day two_runs 4 1 ≡ ok 30
unfolding project_day
reads_spend = refl

abbrev ended_run : Db
ended_run = with_runs (a_run 1 RunState.failed ∷ [])

one_run : count_where (is_run 1) ended_run.runs ≤ 1
unfolding count_where
one_run = omega arith

finds_ended : by_id ended_run 1 ≡ ok (a_run 1 RunState.failed)
unfolding by_id
finds_ended = refl
