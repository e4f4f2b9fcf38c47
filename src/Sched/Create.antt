-- ===== src/Sched/Create.antt =====
-- internal/kernel/sched/scheduler.go: `EnqueueLoopStopped`, and of internal/kernel/store/runs.go the
-- number and the row that a new run gets. `domain.NewID` is an argument.
pub mod Laws
use lexicode.Prelude.{
  ℕ, ◌+◌, Bool, true, false, List, [], ◌∷◌, ◌++◌, Option, none, some, Result, ok, err, ◌==◌, ltb,
  if◌then◌else◌, ◌||◌,
}
use lexicode.Domain.RunState.{loop_stopped}
use lexicode.Domain.Words.{Key, blank, Time, Words, silence}
use lexicode.Domain.Rows.{Run}
use lexicode.Store.Db.{Db, Query, StoreError, io, agent_by_id}
use lexicode.Store.Runs.{null_if}
use lexicode.Sched.World.{
  World, SchedError, store, incomplete_request, run_loop_stopped, audited, published,
}

-- MAX(seq) of a project, 0 where it has no run.
unfoldable pub max_seq : Key → List Run → ℕ
max_seq project [] = 0
max_seq project (r ∷ rs) =
    let rest = max_seq project rs in
    if r.project_id == project then (if ltb rest r.seq then r.seq else rest) else rest

-- `NextSeq`
unfoldable pub next_seq : Db → Key → Result StoreError ℕ
unfolding max_seq
next_seq db project = if db.outage Query.next_seq then err io else ok (max_seq project db.runs + 1)

-- `Create`
unfoldable pub create_run : Db → Run → Result StoreError Db
create_run db run =
    if db.outage Query.create_run then err io else ok (record db { runs = db.runs ++ run ∷ [] })

-- `LoopStoppedRun`
pub record LoopStoppedRun : Type 0 where
  pub project_id : Key
  pub agent_id : Key
  pub trigger_id : Key
  pub cause_event_id : Key
  pub subject_key : Key
  pub depth : ℕ
  pub reason : Words

unfoldable pub loop_stopped_row : Key → Time → (seq : ℕ) → LoopStoppedRun → Run
loop_stopped_row id now seq req = record {
  id = id;
  seq = seq;
  project_id = req.project_id;
  agent_id = req.agent_id;
  ticket_id = none;
  trigger_id = null_if req.trigger_id;
  cause_event_id = null_if req.cause_event_id;
  parent_run_id = none;
  requested_by_user_id = none;
  state = loop_stopped;
  state_reason = req.reason;
  hold_reason = silence;
  instance_id = none;
  container_id = none;
  branch = none;
  base_sha = none;
  log_offset = 0;
  depth = req.depth;
  subject_key = req.subject_key;
  cost_cents = 0;
  tokens_in = 0;
  tokens_out = 0;
  tokens_cache_read = 0;
  tokens_cache_write = 0;
  step_count = 0;
  error_message = silence;
  takeover_note = blank;
  queued_at = now;
  started_at = none;
  ended_at = some now;
  acknowledged_at = none;
}

-- The row is written; what is left is the audit entry, whose failure is returned, and the event.
unfoldable pub announce_stopped : World → Run → World × Result SchedError Run
unfolding audited published
announce_stopped w run =
    if w.db.outage Query.audit_write
    then (w, err (store io))
    else (published run (audited (run_loop_stopped run.id) w), ok run)

-- The transaction: a number, then the row.
unfoldable pub insert_stopped : Key → Time → World → LoopStoppedRun → World × Result SchedError Run
unfolding next_seq create_run loop_stopped_row
insert_stopped id now w req = elim (next_seq w.db req.project_id) [
  | err e ↦ (w, err (store e))
  | ok seq ↦ elim (create_run w.db (loop_stopped_row id now seq req)) [
    | err e ↦ (w, err (store e))
    | ok db ↦ announce_stopped (record w { db = db }) (loop_stopped_row id now seq req)
  ]
]

unfoldable pub enqueue_loop_stopped :
    Key → Time → World → LoopStoppedRun → World × Result SchedError Run
enqueue_loop_stopped id now w req =
    if req.project_id == blank || req.agent_id == blank
    then (w, err incomplete_request)
    else elim (agent_by_id w.db req.agent_id) [
      | err e ↦ (w, err (store e))
      | ok agent ↦ insert_stopped id now w req
    ]
