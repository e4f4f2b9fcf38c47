-- ===== src/Sched/Stop/Cancels.antt =====
-- A run that is asked to stop ends canceled: `StopRun` and the terminal path of internal/kernel/sched.
use lexicode.Prelude.{
  ◌≡◌, refl, sym, ◌∙◌, ap, subst, Bool, true, false, not, ◌&&◌, List, [], none, some, ok,
  if◌then◌else◌, first_where-some, arith,
}
use lexicode.Prelude.Lists.Rows.{first_where-update}
use lexicode.Domain.RunState.{RunState, same_state, is_terminal, canceled, completed}
use lexicode.Domain.Words.{Key, Time, Words}
use lexicode.Domain.Rows.{Run}
use lexicode.Store.Db.{Db, Query}
use lexicode.Store.Runs.{RunStateUpdate, no_update, by_id, apply_update}
use lexicode.Store.Queries.{drop_queued}
use lexicode.Sched.World.{World}
use lexicode.Sched.Machine.{transition_legal}
use lexicode.Sched.States.{settled, stamp, transition}
use lexicode.Sched.States.Lands.{transition-lands}
use lexicode.Sched.Kernel.{
  Supervisor, supervises, Kernel, db_of, supervisor_of, with_supervisor,
  cancel_pending_elicitations, drop_messages, revoke, wake,
}
use lexicode.Sched.Stop.{request_stop, stopped_by, after_cancel, cancel_directly, stop_run}
use lexicode.Sched.Supervise.{
  Waited, outcome_of, PreserveOutcome, record_partial_work, tear_down, move_to, finish, forget,
  session_over,
}
use lexicode.Sched.Board.Stops.{cancel_pending-db}

-- The run is there, stands as `r`, and its state can be written.
record Stands (id : Key) (r : Run) (db : Db) : Type 0 where
  row : by_id db id ≡ ok r
  up : db.outage (Query.set_state id) ≡ false

drop_queued-row : (db : Db) (i id : Key) → by_id (drop_queued db i) id ≡ by_id db id
unfolding drop_queued by_id
drop_queued-row db i id = ground arith

drop_queued-outage : (db : Db) (i : Key) (q : Query) → (drop_queued db i).outage q ≡ db.outage q
unfolding drop_queued
drop_queued-outage db i q = ground arith

-- Closing the questions of a run and dropping its messages touches no run.
closed-db :
    (now : Time) (i : Key) (k : Kernel)
    → db_of (drop_messages i (cancel_pending_elicitations now i k)) ≡ drop_queued (db_of k) i
unfolding drop_messages
closed-db now i k = ap (λ (d : Db). drop_queued d i) (cancel_pending-db now i k)

closed-row :
    (now : Time) (i id : Key) (k : Kernel)
    → by_id (db_of (drop_messages i (cancel_pending_elicitations now i k))) id ≡ by_id (db_of k) id
closed-row now i id k =
    ap (λ (d : Db). by_id d id) (closed-db now i k) ∙ drop_queued-row (db_of k) i id

closed-Stands :
    (now : Time) (i id : Key) (r : Run) (k : Kernel)
    → Stands id r (db_of k)
    → Stands id r (db_of (drop_messages i (cancel_pending_elicitations now i k)))
closed-Stands now i id r k s = record {
  row = closed-row now i id k ∙ s.row;
  up =
      ap (λ (d : Db). d.outage (Query.set_state id)) (closed-db now i k)
      ∙ drop_queued-outage (db_of k) i (Query.set_state id)
      ∙ s.up;
}

-- A run that has not ended can be canceled.
cancel-legal :
    (s : RunState)
    → is_terminal s ≡ false
    → (transition_legal s canceled ≡ true) × (same_state s canceled ≡ false)
unfolding transition_legal
cancel-legal s live = (ground arith, ground arith)

abbrev why_update : Words → RunStateUpdate
why_update why = record no_update { state_reason = some why }

-- A canceled row, for a reason.
record Canceled (id : Key) (why : Words) (db : Db) : Type 0 where
  run : Run
  row : by_id db id ≡ ok run
  state : run.state ≡ canceled
  reason : run.state_reason ≡ why

canceled-reason :
    (now : Time) {why : Words} (u : RunStateUpdate) (r : Run)
    → u.state_reason ≡ some why
    → (apply_update canceled (stamp now canceled u) r).state_reason ≡ why
unfolding apply_update stamp
canceled-reason now u r says = ground (arith, says)

module _ (races : Key → List (Db → Db)) (now : Time) (id : Key) (why : Words) (r : Run)
    (alone : races id ≡ []) (live : is_terminal r.state ≡ false) where
  -- A transition to canceled for this reason.
  canceled-lands :
      (w : World) (u : RunStateUpdate)
      → u.state_reason ≡ some why
      → Stands id r w.db
      → (x : Run) × ((transition (races id) now w id canceled u).1 ≡ settled (ok x))
        × (by_id (transition (races id) now w id canceled u).0.db id ≡ ok x)
        × (x.state ≡ canceled)
        × (x.state_reason ≡ why)
  canceled-lands w u says s =
      let (legal, moves) = cancel-legal r.state live in
      let x = apply_update canceled (stamp now canceled u) r in
      let (done, after) = transition-lands now w id canceled u r s.row legal moves s.up in
      rw alone (x, done, after, unfold apply_update in refl, canceled-reason now u r says)

  after_cancel-row : (k : Kernel) → by_id (db_of (after_cancel now id k)) id ≡ by_id (db_of k) id
  unfolding after_cancel revoke wake
  after_cancel-row k = closed-row now id id k

  -- `StopRun` of a run that has not ended and has no supervisor cancels it, for the reason given, if the
  -- statements on its row go through and no other writer moves it meanwhile.
  pub stop_run-unsupervised :
      (k : Kernel)
      → by_id (db_of k) id ≡ ok r
      → (db_of k).outage (Query.set_state id) ≡ false
      → supervisor_of k id ≡ none
      → ((stop_run races now k id why).1 ≡ ok tt)
        × ((x : Run) × (by_id (db_of (stop_run races now k id why).0) id ≡ ok x)
            × (x.state ≡ canceled)
            × (x.state_reason ≡ why))
  unfolding stop_run cancel_directly
  stop_run-unsupervised k row up none_alive =
      let (x, done, after, state, reason) =
        canceled-lands k.world (why_update why) refl (record { row = row; up = up }) in
      let k' : Kernel = record k {
        world = (transition (races id) now k.world id canceled (why_update why)).0;
      } in
      rw (row, stop_run)
        (rw (live, none_alive)
          (rw (done, cancel_directly) (refl, (x, after_cancel-row k' ∙ after, state, reason))))

record_partial_work-same :
    (now : Time) (id branch : Key) (done : Bool) (k : Kernel)
    → db_of (if done then record_partial_work now id branch k else k) ≡ db_of k
unfolding record_partial_work
record_partial_work-same now id branch true k = ground arith
record_partial_work-same now id branch false k = refl

supervisor_of-stopped :
    (k : Kernel) (id : Key) (why : Words) {sup : Supervisor}
    → supervisor_of k id ≡ some sup
    → supervisor_of (with_supervisor id (stopped_by why) k) id ≡ some (stopped_by why sup)
unfolding supervisor_of with_supervisor
supervisor_of-stopped k id why {sup} h =
    first_where-update (supervises id) (supervises id) (stopped_by why)
      (λ x. unfold stopped_by request_stop in ground arith) k.supervisors h
    ∙ rw (first_where-some (supervises id) k.supervisors sup h) refl

-- A first stop decides the outcome of the session, whatever its result.
outcome_of-stopped :
    (why : Words) (sup : Supervisor) (w : Waited)
    → sup.stop ≡ none
    → outcome_of (stopped_by why sup) w ≡ (canceled, why, why)
unfolding outcome_of stopped_by request_stop
outcome_of-stopped why sup w fresh = ground (arith, fresh)

module _ (races : Key → List (Db → Db)) (now : Time) (why : Words) (r : Run)
    (alone : races r.id ≡ []) (live : is_terminal r.state ≡ false) where
  finish-Canceled :
      (p : PreserveOutcome) (k : Kernel)
      → Stands r.id r (db_of k)
      → (x : Run) × (by_id (db_of (finish races now r p (canceled, why, why) k)) r.id ≡ ok x)
        × (x.state ≡ canceled)
        × (x.state_reason ≡ why)
  unfolding finish move_to tear_down wake revoke
  finish-Canceled p k s =
      let k' : Kernel =
        if p.pushed && not (same_state canceled completed)
        then record_partial_work now r.id p.branch k
        else k in
      let s' = closed-Stands now r.id r.id r (revoke r.id k') (
        subst (Stands r.id r)
          (sym (
            record_partial_work-same now r.id p.branch
              (p.pushed && not (same_state canceled completed)) k))
          s) in
      let (x, done, after, state, reason) =
        canceled-lands races now r.id why r alone live _ _ refl s' in
      (x, after, state, reason)

  session_over-stopped :
      (sup : Supervisor) (p : PreserveOutcome) (w : Waited) (k : Kernel)
      → sup.stop ≡ none
      → k.stopping ≡ false
      → Stands r.id r (db_of k)
      → (x : Run) × (by_id (db_of (session_over races now r (stopped_by why sup) p w k)) r.id
          ≡ ok x)
        × (x.state ≡ canceled)
        × (x.state_reason ≡ why)
  unfolding session_over forget
  session_over-stopped sup p w k fresh serving s =
      simp (serving, outcome_of-stopped why sup w fresh) (finish-Canceled p k s)

  -- `StopRun` of a run that has a supervisor, not asked to stop before, asks it to; and when its session
  -- ends, whatever the session answered and whatever could be preserved of the work, the run ends
  -- canceled for the reason of the stop, if the statements on its row go through and no other writer moves
  -- it.
  pub stop_run-supervised :
      (k : Kernel) (sup : Supervisor)
      → by_id (db_of k) r.id ≡ ok r
      → (db_of k).outage (Query.set_state r.id) ≡ false
      → supervisor_of k r.id ≡ some sup
      → sup.stop ≡ none
      → k.stopping ≡ false
      → (supervisor_of (stop_run races now k r.id why).0 r.id ≡ some (stopped_by why sup))
        × ((p : PreserveOutcome) (w : Waited)
            → (x : Run) × (by_id
                  (db_of (
                    session_over races now r
                      (stopped_by why sup)
                      p
                      w
                      (stop_run races now k r.id why).0))
                  r.id
                ≡ ok x)
              × (x.state ≡ canceled)
              × (x.state_reason ≡ why))
  unfolding stop_run
  stop_run-supervised k sup row up alive fresh serving =
      rw (row, stop_run)
        (rw (live, alive)
          (
            supervisor_of-stopped k r.id why alive,
            λ p w.
                session_over-stopped sup p w (with_supervisor r.id (stopped_by why) k) fresh
                  (unfold with_supervisor in serving)
                  (record {
                    row = unfold with_supervisor in row;
                    up = unfold with_supervisor in up;
                  }),
          ))
