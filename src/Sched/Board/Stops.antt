-- ===== src/Sched/Board/Stops.antt =====
-- Stopping, making and ending runs, of internal/kernel/sched, on the board.
use lexicode.Prelude.{
  subst, sym, ◌≡◌, refl, Bool-cases, Result-cases, inl, inr, List, [], ◌∷◌, some, Result, ok, err,
  arith,
}
use lexicode.Domain.RunState.{canceled, is_terminal}
use lexicode.Domain.Words.{Key, Time, Words}
use lexicode.Domain.Rows.{Run, Elicitation, ElicitationState}
use lexicode.Store.Db.{Db, StoreError}
use lexicode.Store.Runs.{RunStateUpdate, no_update, by_id, set_takeover_note}
use lexicode.Sched.States.{Round, settled, lost, transition}
use lexicode.Sched.Kernel.{
  Kernel, db_of, supervise_from, with_supervisor, respond, close_all, pending_for_run,
  cancel_pending_elicitations, drop_messages, revoke, wake,
}
use lexicode.Sched.Stop.{
  after_cancel, cancel_directly, stop_run, stop_noted, takeover_run, stop_all, cancel_ticket_runs,
}
use lexicode.Sched.Board.{Board}
use lexicode.Sched.Board.Writes.{
  Grows, Legal, transition-Grows, drop_queued-Grows, set_takeover_note-Grows,
}

pub supervise_from-db : (id : Key) (k : Kernel) → db_of (supervise_from id k) ≡ db_of k
unfolding supervise_from
supervise_from-db id k = ground arith

close_all-db :
    (now : Time) (els : List Elicitation) (k : Kernel) → db_of (close_all now els k) ≡ db_of k
unfolding close_all respond
close_all-db now [] k = refl
close_all-db now (el ∷ els) k =
    ground (arith, close_all-db now els (respond k el.id ElicitationState.canceled now).0)

pub cancel_pending-db :
    (now : Time) (id : Key) (k : Kernel) → db_of (cancel_pending_elicitations now id k) ≡ db_of k
unfolding cancel_pending_elicitations
cancel_pending-db now id k = elim (Result-cases (pending_for_run k id)) [
  | inl (els, e) ↦ rw (e, cancel_pending_elicitations) (close_all-db now els k)
  | inr (x, e) ↦ rw (e, cancel_pending_elicitations) refl
]

module _ (races : Key → List (Db → Db)) (legal : Legal races) (now : Time) (b : Board) where
  pub drop_messages-Grows :
      (id : Key) (k : Kernel) → Grows b (db_of k) → Grows b (db_of (drop_messages id k))
  unfolding drop_messages
  drop_messages-Grows id k g = drop_queued-Grows b (db_of k) id g

  after_cancel-Grows :
      (id : Key) (k : Kernel) → Grows b (db_of k) → Grows b (db_of (after_cancel now id k))
  unfolding after_cancel revoke wake
  after_cancel-Grows id k g =
      drop_messages-Grows id (cancel_pending_elicitations now id k)
        (subst (Grows b) (sym (cancel_pending-db now id k)) g)

  cancel_directly-Grows :
      (k : Kernel) (id : Key) (why : Words)
      → Grows b (db_of k)
      → Grows b (db_of (cancel_directly races now k id why).0)
  unfolding cancel_directly
  cancel_directly-Grows k id why g =
      go (transition (races id) now k.world id canceled u).1 refl
        (transition-Grows races legal now b k.world id canceled u g)
    where
      u : RunStateUpdate
      u = record no_update { state_reason = some why }

      go :
          (r : Round)
          → (transition (races id) now k.world id canceled u).1 ≡ r
          → Grows b (transition (races id) now k.world id canceled u).0.db
          → Grows b (db_of (cancel_directly races now k id why).0)
      go (settled (ok after)) e done =
          rw (e, cancel_directly)
            (after_cancel-Grows id
              (record k { world = (transition (races id) now k.world id canceled u).0 }) done)
      go (settled (err x)) e done = rw (e, cancel_directly) done
      go lost e done = rw (e, cancel_directly) done

  pub stop_run-Grows :
      (k : Kernel) (id : Key) (why : Words)
      → Grows b (db_of k)
      → Grows b (db_of (stop_run races now k id why).0)
  unfolding stop_run with_supervisor
  stop_run-Grows k id why g = grind (arith, cancel_directly-Grows)

  pub takeover_run-Grows :
      (k : Kernel) (id note : Key)
      → Grows b (db_of k)
      → Grows b (db_of (takeover_run races now k id note).0)
  unfolding takeover_run
  takeover_run-Grows k id note g = elim (Result-cases (by_id (db_of k) id)) [
    | inr (x, e) ↦ rw (e, takeover_run) g
    | inl (r, e) ↦ elim (Bool-cases (is_terminal r.state)) [
      | inl over ↦ rw (e, takeover_run) (rw over g)
      | inr live ↦ rw (e, takeover_run) (rw live (noted (set_takeover_note (db_of k) id note) refl))
    ]
  ]
    where
      noted :
          (p : Db × Result StoreError (Unit {0}))
          → set_takeover_note (db_of k) id note ≡ p
          → Grows b (db_of (stop_noted races now k id p).0)
      noted (db, err x) e =
          unfold stop_noted in
          subst (λ q. Grows b q.0) e (set_takeover_note-Grows b (db_of k) id note g)
      noted (db, ok done) e =
          unfold stop_noted in
          stop_run-Grows (record k { world = record k.world { db = db } }) id _
            (subst (λ q. Grows b q.0) e (set_takeover_note-Grows b (db_of k) id note g))

  stop_all-Grows :
      (k : Kernel) (runs : List Run) (why : Words)
      → Grows b (db_of k)
      → Grows b (db_of (stop_all races now k runs why).0)
  unfolding stop_all
  stop_all-Grows k [] why g = g
  stop_all-Grows k (run ∷ runs) why g =
      stop_all-Grows (stop_run races now k run.id why).0 runs why (stop_run-Grows k run.id why g)

  pub cancel_ticket_runs-Grows :
      (k : Kernel) (ticket : Key) (why : Words)
      → Grows b (db_of k)
      → Grows b (db_of (cancel_ticket_runs races now k ticket why).0)
  unfolding cancel_ticket_runs
  cancel_ticket_runs-Grows k ticket why g = grind (arith, stop_all-Grows)
