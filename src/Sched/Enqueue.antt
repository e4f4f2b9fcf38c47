-- ===== src/Sched/Enqueue.antt =====
-- internal/kernel/sched/scheduler.go: `Enqueue`, which makes a run. The context that prompt.go puts
-- together for a request is the argument `assemble`: an error, or the ids of its items; ids are
-- arguments. The warning that a context is over its budget goes to the transcript only and is left out.
pub mod Laws
use lexicode.Prelude.{
  ℕ, suc, ◌+◌, Bool, true, false, not, List, [], ◌∷◌, ◌++◌, Option, none, some, Result, ok, err,
  ◌==◌, if◌then◌else◌, ◌||◌, ◌&&◌, holds, update_where,
}
use lexicode.Domain.RunState.{queued}
use lexicode.Domain.Words.{Key, blank, Time, Words, silence, superseded_by}
use lexicode.Domain.Rows.{Run, Agent, Ticket, RunContextItem, StreamEntry}
use lexicode.Store.Db.{Db, Query, StoreError, io, agent_by_id, ticket_by_id}
use lexicode.Store.Runs.{null_if}
use lexicode.Store.Queries.{is_null}
use lexicode.Sched.World.{
  World, SchedError, store, incomplete_request, foreign_agent, agent_disabled, foreign_ticket,
  ticket_archived, run_enqueue, audited, published,
}
use lexicode.Sched.Create.{next_seq, create_run}
use lexicode.Sched.Kernel.{Kernel, db_of, wake}
use lexicode.Sched.Stop.{stop_run}
use lexicode.Triggers.Firing.{supersede}

-- `RunRequest`, with the empty text for what is absent; its changed paths serve the prompt only.
pub record RunRequest : Type 0 where
  pub project_id : Key
  pub agent_id : Key
  pub ticket_id : Key
  pub reason : Words
  pub requested_by_user_id : Key
  pub trigger_id : Key
  pub cause_event_id : Key
  pub parent_run_id : Key
  pub subject_key : Key
  pub depth : ℕ
  pub superseded_run_id : Key

unfoldable pub ticket_row : Db → RunRequest → Ticket → Result SchedError (Option Ticket)
ticket_row db req tk =
    if not (tk.project_id == req.project_id)
    then err foreign_ticket
    else if not (is_null tk.archived_at)
    then err ticket_archived
    else ok (some tk)

unfoldable pub ticket_for : Db → RunRequest → Result SchedError (Option Ticket)
unfolding ticket_row
ticket_for db req =
    if req.ticket_id == blank then ok none else elim (ticket_by_id db req.ticket_id) [
      | err e ↦ err (store e)
      | ok tk ↦ ticket_row db req tk
    ]

unfoldable pub agent_for : RunRequest → Agent → Result SchedError Agent
agent_for req agent =
    if not (agent.project_id == req.project_id)
    then err foreign_agent
    else if not agent.enabled || not (is_null agent.archived_at)
    then err agent_disabled
    else ok agent

unfoldable pub with_ticket :
    Agent → Result SchedError (Option Ticket) → Result SchedError (Agent × Option Ticket)
with_ticket agent (err e) = err e
with_ticket agent (ok ticket) = ok (agent, ticket)

unfoldable pub with_agent :
    Db → RunRequest → Result SchedError Agent → Result SchedError (Agent × Option Ticket)
unfolding ticket_for with_ticket
with_agent db req (err e) = err e
with_agent db req (ok agent) = with_ticket agent (ticket_for db req)

-- `loadRequestRows`
unfoldable pub load_request_rows : Db → RunRequest → Result SchedError (Agent × Option Ticket)
load_request_rows db req =
    if req.project_id == blank || req.agent_id == blank
    then err incomplete_request
    else elim (agent_by_id db req.agent_id) [
      | err e ↦ err (store e)
      | ok agent ↦ with_agent db req (agent_for req agent)
    ]

-- The subject of the guard wins over the one of the ticket.
abbrev pub subject_of : (subject_key : Option Ticket → Key) → RunRequest → Option Ticket → Key
subject_of subject_key req ticket =
    if req.subject_key == blank then subject_key ticket else req.subject_key

unfoldable pub queued_row :
    (id : Key) (now : Time) (seq : ℕ) (subject : Key) → RunRequest → Agent → Run
queued_row id now seq subject req agent = record {
  id = id;
  seq = seq;
  project_id = req.project_id;
  agent_id = agent.id;
  ticket_id = null_if req.ticket_id;
  trigger_id = null_if req.trigger_id;
  cause_event_id = null_if req.cause_event_id;
  parent_run_id = null_if req.parent_run_id;
  requested_by_user_id = null_if req.requested_by_user_id;
  state = queued;
  state_reason = req.reason;
  hold_reason = silence;
  instance_id = none;
  container_id = none;
  branch = none;
  base_sha = none;
  log_offset = 0;
  depth = req.depth;
  subject_key = subject;
  cost_cents = 0;
  tokens_in = 0;
  tokens_out = 0;
  tokens_cache_read = 0;
  tokens_cache_write = 0;
  step_count = 0;
  error_message = silence;
  takeover_note = blank;
  queued_at = now;
  started_at = none;
  ended_at = none;
  acknowledged_at = none;
}

-- The context items of a run, numbered from 1.
unfoldable pub numbered : (run : Key) (position : ℕ) → List Key → List RunContextItem
numbered run position [] = []
numbered run position (id ∷ ids) =
    record { id = id; run_id = run; position = position } ∷ numbered run (suc position) ids

unfoldable pub add_items : Kernel → Key → List Key → Result StoreError Kernel
unfolding numbered
add_items k run [] = ok k
add_items k run (id ∷ ids) =
    if (db_of k).outage Query.create_item
    then err io
    else ok (record k { items = k.items ++ numbered run 1 (id ∷ ids) })

-- The card of the run in the stream of its ticket.
unfoldable pub add_card :
    (entry : Key) (now : Time) → Kernel → Run → Option Ticket → Result StoreError Kernel
add_card entry now k run none = ok k
add_card entry now k run (some ticket) =
    if (db_of k).outage Query.append_stream
    then err io
    else ok (record k {
      stream =
          k.stream
          ++ record {
            id = entry;
            ticket_id = ticket.id;
            actor_id = run.agent_id;
            run_seq = run.seq;
            reason = run.state_reason;
            run_id = run.id;
            created_at = now;
          }
            ∷ [];
    })

-- What the transaction writes after the row.
unfoldable pub add_details :
    (entry : Key) (now : Time) → Kernel → Run → Option Ticket → List Key → Result StoreError Kernel
unfolding add_items add_card
add_details entry now k run ticket ids = elim (add_items k run.id ids) [
  | err e ↦ err e
  | ok k' ↦ add_card entry now k' run ticket
]

unfoldable pub with_db : Kernel → Db → Kernel
with_db k db = record k { world = record k.world { db = db } }

unfoldable pub add_run :
    (entry : Key) (now : Time) → Kernel → Run → Option Ticket → List Key → Result StoreError Kernel
unfolding create_run add_details with_db
add_run entry now k run ticket ids = elim (create_run (db_of k) run) [
  | err e ↦ err e
  | ok db ↦ add_details entry now (with_db k db) run ticket ids
]

abbrev pub and_run : Run → Result StoreError Kernel → Result StoreError (Kernel × Run)
and_run run (err e) = err e
and_run run (ok k) = ok (k, run)

-- The transaction of `Enqueue`: all of it, or an error and nothing.
unfoldable pub insert_run_rows :
    (id entry : Key) (now : Time) (subject : Key)
    → Kernel
    → RunRequest
    → Agent
    → Option Ticket
    → List Key
    → Result StoreError (Kernel × Run)
unfolding next_seq add_run queued_row
insert_run_rows id entry now subject k req agent ticket ids =
    elim (next_seq (db_of k) req.project_id) [
      | err e ↦ err e
      | ok seq ↦
          let run = queued_row id now seq subject req agent in
          and_run run (add_run entry now k run ticket ids)
    ]

unfoldable pub publish_run : Run → Kernel → Kernel
unfolding published
publish_run run k = record k { world = published run k.world }

unfoldable pub log_enqueue : Run → Kernel → Kernel
unfolding audited
log_enqueue run k = record k { world = audited (run_enqueue run.id) k.world }

module _ (races : Key → List (Db → Db)) (now : Time) (id entry : Key)
    (subject_key : Option Ticket → Key)
    (assemble : RunRequest → Agent → Option Ticket → Result SchedError (List Key)) where
  -- `Supersede` of the firing of the old run; a failure is logged.
  unfoldable pub mark_superseded : Kernel → RunRequest → Run → Kernel
  mark_superseded k req run =
      if req.trigger_id == blank || (db_of k).outage Query.supersede_firing then k else record k {
        firings =
            supersede req.trigger_id req.superseded_run_id run.id (superseded_by run.seq) k.firings;
      }

  -- Cancel-in-progress: a stop that fails is logged.
  unfoldable pub stop_superseded : Kernel → RunRequest → Run → Kernel
  stop_superseded k req run =
      if req.superseded_run_id == blank
      then k
      else mark_superseded (stop_run races now k req.superseded_run_id (superseded_by run.seq)).0
          req run

  -- After the rows are committed: the audit entry, whose failure is returned, the superseded run, the
  -- event, the wake.
  unfoldable pub announce : Kernel → RunRequest → Run → Kernel × Result SchedError Run
  announce k req run =
      if (db_of k).outage Query.audit_write
      then (k, err (store io))
      else (wake (publish_run run (stop_superseded (log_enqueue run k) req run)), ok run)

  unfoldable pub enqueue_rows :
      Kernel
      → RunRequest
      → Agent
      → Option Ticket
      → Result SchedError (List Key)
      → Kernel × Result SchedError Run
  enqueue_rows k req agent ticket (err e) = (k, err e)
  enqueue_rows k req agent ticket (ok ids) =
      elim (insert_run_rows id entry now (subject_of subject_key req ticket) k req agent ticket
        ids) [ err e ↦ (k, err (store e)) | ok (k', run) ↦ announce k' req run ]

  -- `Enqueue`
  unfoldable pub enqueue : Kernel → RunRequest → Kernel × Result SchedError Run
  enqueue k req = elim (load_request_rows (db_of k) req) [
    | err e ↦ (k, err e)
    | ok (agent, ticket) ↦ enqueue_rows k req agent ticket (assemble req agent ticket)
  ]
