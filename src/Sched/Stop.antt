-- ===== src/Sched/Stop.antt =====
-- internal/kernel/sched/supervisor.go and scheduler.go: how a run is stopped. `races run` is what other
-- writers do during the transition of that run.
pub mod Cancels
use lexicode.Prelude.{
  ℕ, ◌+◌, Bool, true, false, List, [], ◌∷◌, ◌++◌, Option, none, some, Result, ok, err, ◌==◌,
  if◌then◌else◌,
}
use lexicode.Domain.RunState.{RunState, canceled, is_terminal}
use lexicode.Domain.Words.{Key, Time, Words, takeover}
use lexicode.Domain.Rows.{Run}
use lexicode.Store.Db.{Db, StoreError}
use lexicode.Store.Runs.{no_update, by_id, set_takeover_note}
use lexicode.Store.Queries.{active_for_ticket}
use lexicode.Sched.World.{World, SchedError, store}
use lexicode.Sched.States.{Round, settled, lost, transition}
use lexicode.Sched.Kernel.{
  Supervisor, Kernel, db_of, supervisor_of, with_supervisor, wake, revoke,
  cancel_pending_elicitations, drop_messages,
}

-- `requestStop`: the first stop is recorded, and told to the agent if it runs.
unfoldable pub request_stop : RunState → Words → Supervisor → Supervisor
request_stop kind why sup = elim sup.stop [
  | some s ↦ sup
  | none ↦ record sup {
    stop = some (kind, why);
    signals = if sup.launched then sup.signals ++ why ∷ [] else sup.signals;
  }
]

-- `setHandle`, and the stop that it reports delivered to the new session.
unfoldable pub set_handle : Supervisor → Supervisor
set_handle sup = record sup {
  launched = true;
  signals = elim sup.stop [ none ↦ sup.signals | some (kind, why) ↦ sup.signals ++ why ∷ [] ];
}

-- What `StopRun` does to the supervisor: it is asked to stop, and one without a session has its
-- context cancelled.
unfoldable pub stopped_by : Words → Supervisor → Supervisor
unfolding request_stop
stopped_by why sup =
    let sup' = request_stop canceled why sup in
    if sup'.launched then sup' else record sup' { ended = true }

unfoldable pub after_cancel : Time → Key → Kernel → Kernel
unfolding cancel_pending_elicitations drop_messages revoke wake
after_cancel now id k = wake (revoke id (drop_messages id (cancel_pending_elicitations now id k)))

module _ (races : Key → List (Db → Db)) (now : Time) where
  -- The direct transition of a run that has no supervisor.
  unfoldable pub cancel_directly : Kernel → Key → Words → Kernel × Result SchedError (Unit {0})
  unfolding after_cancel
  cancel_directly k id why =
      let (w, res) =
        transition (races id) now k.world id canceled
          (record no_update { state_reason = some why }) in
      let k' : Kernel = record k { world = w } in
      elim res [
        | settled (ok run) ↦ (after_cancel now id k', ok tt)
        | settled (err e) ↦ (k', err e)
        | lost ↦ (k', ok tt)
      ]

  -- `StopRun`
  unfoldable pub stop_run : Kernel → Key → Words → Kernel × Result SchedError (Unit {0})
  unfolding by_id supervisor_of with_supervisor stopped_by
  stop_run k id why = elim (by_id (db_of k) id) [
    | err e ↦ (k, err (store e))
    | ok run ↦ if is_terminal run.state then (k, ok tt) else elim (supervisor_of k id) [
      | some sup ↦ (with_supervisor id (stopped_by why) k, ok tt)
      | none ↦ cancel_directly k id why
    ]
  ]

  -- `TakeoverRun` from the point where the note is written.
  unfoldable pub stop_noted :
      Kernel → Key → Db × Result StoreError (Unit {0}) → Kernel × Result SchedError (Unit {0})
  stop_noted k id (db, err e) = (record k { world = record k.world { db = db } }, err (store e))
  stop_noted k id (db, ok done) =
      stop_run (record k { world = record k.world { db = db } }) id takeover

  -- `TakeoverRun`
  unfoldable pub takeover_run : Kernel → Key → (note : Key) → Kernel × Result SchedError (Unit {0})
  unfolding by_id set_takeover_note
  takeover_run k id note = elim (by_id (db_of k) id) [
    | err e ↦ (k, err (store e))
    | ok run ↦
        if is_terminal run.state
        then (k, ok tt)
        else stop_noted k id (set_takeover_note (db_of k) id note)
  ]

  -- The loop of `CancelTicketRuns`: a stop that fails is logged and not counted.
  unfoldable pub stop_all : Kernel → List Run → Words → Kernel × ℕ
  stop_all k [] why = (k, 0)
  stop_all k (run ∷ runs) why =
      let (k', res) = stop_run k run.id why in
      let (k'', n) = stop_all k' runs why in (k'', elim res [ err e ↦ n | ok done ↦ n + 1 ])

  -- `CancelTicketRuns`
  unfoldable pub cancel_ticket_runs : Kernel → (ticket : Key) → Words → Kernel × Result SchedError ℕ
  unfolding active_for_ticket
  cancel_ticket_runs k ticket why = elim (active_for_ticket (db_of k) ticket) [
    | err e ↦ (k, err (store e))
    | ok runs ↦ let (k', n) = stop_all k runs why in (k', ok n)
  ]
