-- ===== src/Store/Runs.antt =====
-- internal/kernel/store/runs.go and runstate.go: the runs table. The UPDATE and SELECT statements
-- are read as updates and searches of the list of rows.
pub mod Laws
pub mod Writes
use mathlib.Core.Bool.{not}
use lexicode.Prelude.{
  ℕ, suc, ◌+◌, Bool, true, false, ◌&&◌, ◌||◌, List, [], ◌∷◌, ◌++◌, Option, none, some, Result, ok,
  err, ◌==◌, ltb, leb, if◌then◌else◌, first_where, count_where, update_where, select, any, holds,
}
use lexicode.Domain.RunState.{
  RunState, queued, completed, loop_stopped, same_state, is_terminal, holds_slot,
}
use lexicode.Domain.Words.{Key, blank, Time, Words}
use lexicode.Domain.Rows.{Run, UsageDelta}
use lexicode.Store.Db.{Db, Query, StoreError, not_found, io, one_row}

abbrev pub is_run : Key → Run → Bool
is_run id r = r.id == id

unfoldable pub by_id : Db → Key → Result StoreError Run
unfolding one_row first_where
by_id db id = one_row (db.outage (Query.run_row id)) (first_where (is_run id) db.runs)

-- `RunStateUpdate`: a nil field is left untouched.
pub record RunStateUpdate : Type 0 where
  pub state_reason : Option Words
  pub hold_reason : Option Words
  pub error_message : Option Words
  pub started_at : Option Time
  pub ended_at : Option Time

abbrev pub no_update : RunStateUpdate
no_update = record {
  state_reason = none;
  hold_reason = none;
  error_message = none;
  started_at = none;
  ended_at = none;
}

abbrev pub or_old {ℓ} : {A : Type ℓ} → Option A → A → A
or_old none a = a
or_old (some b) a = b

abbrev pub or_old_opt {ℓ} : {A : Type ℓ} → Option A → Option A → Option A
or_old_opt none a = a
or_old_opt (some b) a = some b

unfoldable pub apply_update : RunState → RunStateUpdate → Run → Run
apply_update to u r = record r {
  state = to;
  state_reason = or_old u.state_reason r.state_reason;
  hold_reason = or_old u.hold_reason r.hold_reason;
  error_message = or_old u.error_message r.error_message;
  started_at = or_old_opt u.started_at r.started_at;
  ended_at = or_old_opt u.ended_at r.ended_at;
}

-- The WHERE clause of `SetState`: an empty `from` means any state.
unfoldable pub may_set : Key → List RunState → Run → Bool
unfolding any
may_set id [] r = is_run id r
may_set id (s ∷ ss) r = is_run id r && any (same_state r.state) (s ∷ ss)

unfoldable pub set_state :
    Db → Key → List RunState → RunState → RunStateUpdate → Db × Result StoreError Bool
unfolding may_set apply_update count_where update_where
set_state db id from to u = if db.outage (Query.set_state id) then (db, err io) else (
  record db { runs = update_where (may_set id from) (apply_update to u) db.runs },
  ok (ltb 0 (count_where (may_set id from) db.runs)),
)

abbrev pub Written : Type 0
Written = Db × Result StoreError (Unit {0})

-- An UPDATE of one run that does not look at the number of rows.
unfoldable pub write : Db → Query → (Run → Bool) → (Run → Run) → Written
unfolding update_where
write db q p f =
    if db.outage q then (db, err io) else (record db { runs = update_where p f db.runs }, ok tt)

-- The same, with `ErrNotFound` where no row was affected.
unfoldable pub write_found : Db → Query → (Run → Bool) → (Run → Run) → Written
unfolding update_where count_where
write_found db q p f =
    if db.outage q
    then (db, err io)
    else if count_where p db.runs == 0
    then (db, err not_found)
    else (record db { runs = update_where p f db.runs }, ok tt)

unfoldable pub set_hold_reason : Db → Key → Words → Written
unfolding write
set_hold_reason db id reason =
    write db (Query.set_hold_reason id) (λ r. is_run id r && same_state r.state queued)
      (λ r. record r { hold_reason = reason })

-- NULLIF(x, '')
abbrev pub null_if : Key → Option Key
null_if x = if x == blank then none else some x

unfoldable pub set_provisioned :
    Db → Key → (instance_id container_id branch base_sha : Key) → Written
unfolding write_found
set_provisioned db id i c b s = write_found db (Query.set_provisioned id) (is_run id) (λ r.
    record r {
      instance_id = some i;
      container_id = null_if c;
      branch = null_if b;
      base_sha = null_if s;
    })

unfoldable pub set_log_offset : Db → Key → ℕ → Written
unfolding write
set_log_offset db id offset =
    write db (Query.set_log_offset id) (λ r. is_run id r && ltb r.log_offset offset)
      (λ r. record r { log_offset = offset })

unfoldable pub used : UsageDelta → Run → Run
used d r = record r {
  cost_cents = r.cost_cents + d.cost_cents;
  tokens_in = r.tokens_in + d.tokens_in;
  tokens_out = r.tokens_out + d.tokens_out;
  tokens_cache_read = r.tokens_cache_read + d.tokens_cache_read;
  tokens_cache_write = r.tokens_cache_write + d.tokens_cache_write;
}

unfoldable pub add_usage : Db → Key → UsageDelta → Written
unfolding write used
add_usage db id d = write db (Query.add_usage id) (is_run id) (used d)

-- `UsageDelta.Add`
unfoldable pub add_delta : UsageDelta → UsageDelta → UsageDelta
add_delta u v = record {
  tokens_in = u.tokens_in + v.tokens_in;
  tokens_out = u.tokens_out + v.tokens_out;
  tokens_cache_read = u.tokens_cache_read + v.tokens_cache_read;
  tokens_cache_write = u.tokens_cache_write + v.tokens_cache_write;
  cost_cents = u.cost_cents + v.cost_cents;
}

unfoldable pub set_step_count : Db → Key → ℕ → Written
unfolding write
set_step_count db id n =
    write db (Query.set_step_count id) (is_run id) (λ r. record r { step_count = n })

unfoldable pub acknowledge : Db → Key → Time → Written
unfolding write_found
acknowledge db id at =
    write_found db (Query.acknowledge id) (λ r. is_run id r && is_terminal r.state)
      (λ r. record r { acknowledged_at = some at })

unfoldable pub set_takeover_note : Db → Key → Key → Written
unfolding write_found
set_takeover_note db id note =
    write_found db (Query.set_takeover_note id) (is_run id) (λ r. record r { takeover_note = note })
