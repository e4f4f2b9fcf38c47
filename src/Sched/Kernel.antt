-- ===== src/Sched/Kernel.antt =====
-- What internal/kernel/sched/scheduler.go keeps beside the tables that admission reads: the supervisors
-- that are alive, the questions that runs ask, the context and the stream entries of runs, the tokens
-- that were revoked, and whether the admission loop has been woken.
use lexicode.Prelude.{
  ℕ, Bool, true, false, ◌&&◌, List, [], ◌∷◌, ◌++◌, Option, none, some, Result, ok, err, ◌==◌,
  if◌then◌else◌, first_where, select, update_where, count_where,
}
use lexicode.Domain.RunState.{RunState}
use lexicode.Domain.Words.{Key, Time, Words}
use lexicode.Domain.Rows.{
  Run, RunContextItem, StreamEntry, RunOutput, Elicitation, ElicitationState, is_pending,
}
use lexicode.Store.Db.{Db, Query, StoreError, io, not_found}
use lexicode.Store.Queries.{drop_queued}
use lexicode.Sched.World.{World}
use lexicode.Triggers.Firing.{Firing}

-- `supervisor`: `launched` says that its handle is set, `signals` are the calls of the handle's Stop,
-- `ended` says that its context was cancelled.
pub record Supervisor : Type 0 where
  pub run_id : Key
  pub launched : Bool
  pub stop : Option (RunState × Words)
  pub signals : List Words
  pub ended : Bool
  pub parked : Bool
  pub parked_since : Option Time
  pub parked_total : ℕ

abbrev pub new_supervisor : Key → Supervisor
new_supervisor id = record {
  run_id = id;
  launched = false;
  stop = none;
  signals = [];
  ended = false;
  parked = false;
  parked_since = none;
  parked_total = 0;
}

pub record Kernel : Type 0 where
  pub world : World
  pub supervisors : List Supervisor
  pub stopping : Bool
  pub elicitations : List Elicitation
  pub items : List RunContextItem
  pub stream : List StreamEntry
  pub outputs : List RunOutput
  pub firings : List Firing
  pub revoked : List Key
  pub woken : Bool

abbrev pub db_of : Kernel → Db
db_of k = k.world.db

abbrev pub supervises : Key → Supervisor → Bool
supervises id sup = sup.run_id == id

-- `s.supervisors[runID]`
unfoldable pub supervisor_of : Kernel → Key → Option Supervisor
unfolding first_where
supervisor_of k id = first_where (supervises id) k.supervisors

unfoldable pub with_supervisor : Key → (Supervisor → Supervisor) → Kernel → Kernel
unfolding update_where
with_supervisor id f k = record k { supervisors = update_where (supervises id) f k.supervisors }

-- `superviseFrom` of a scheduler that was started, up to the start of its goroutine.
unfoldable pub supervise_from : Key → Kernel → Kernel
unfolding supervisor_of
supervise_from id k = if k.stopping then k else elim (supervisor_of k id) [
  | some sup ↦ k
  | none ↦ record k { supervisors = k.supervisors ++ new_supervisor id ∷ [] }
]

-- The supervisors of the runs that an admission pass has launched, the first of them first.
unfoldable pub start_all : List Run → Kernel → Kernel
start_all [] k = k
start_all (run ∷ runs) k = supervise_from run.id (start_all runs k)

-- `Wake`: the channel holds one signal.
unfoldable pub wake : Kernel → Kernel
wake k = record k { woken = true }

unfoldable pub revoke : Key → Kernel → Kernel
revoke id k = record k { revoked = k.revoked ++ id ∷ [] }

abbrev pub asks : Key → Elicitation → Bool
asks id el = el.run_id == id && is_pending el.state

-- `PendingForRun`; the table is kept in the order of creation.
unfoldable pub pending_for_run : Kernel → Key → Result StoreError (List Elicitation)
unfolding select
pending_for_run k id =
    if (db_of k).outage (Query.elicitations_for id)
    then err io
    else ok (select (asks id) k.elicitations)

abbrev pub open_question : Key → Elicitation → Bool
open_question id el = el.id == id && is_pending el.state

-- `Respond`
unfoldable pub respond :
    Kernel → (id : Key) → ElicitationState → Time → Kernel × Result StoreError (Unit {0})
unfolding update_where count_where
respond k id to at =
    if (db_of k).outage (Query.respond_elicitation id)
    then (k, err io)
    else if count_where (open_question id) k.elicitations == 0
    then (k, err not_found)
    else (
      record k {
        elicitations =
            update_where (open_question id) (λ el. record el { state = to; responded_at = some at })
              k.elicitations;
      },
      ok tt,
    )

-- The loop of `cancelPendingElicitations`; a question that cannot be closed is logged.
unfoldable pub close_all : Time → List Elicitation → Kernel → Kernel
unfolding respond
close_all now [] k = k
close_all now (el ∷ els) k = close_all now els (respond k el.id ElicitationState.canceled now).0

unfoldable pub cancel_pending_elicitations : Time → Key → Kernel → Kernel
unfolding pending_for_run close_all
cancel_pending_elicitations now id k = elim (pending_for_run k id) [
  | err e ↦ k
  | ok els ↦ close_all now els k
]

unfoldable pub drop_messages : Key → Kernel → Kernel
unfolding drop_queued
drop_messages id k = record k { world = record k.world { db = drop_queued (db_of k) id } }
