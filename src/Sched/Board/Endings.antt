-- ===== src/Sched/Board/Endings.antt =====
-- The terminal path, the provisioning and the recovery of runs, of internal/kernel/sched, on the board.
use lexicode.Prelude.{
  subst, sym, ◌≡◌, Bool, true, false, Bool-cases, Option-cases, inl, inr, List, [], ◌∷◌, arith, not,
  ◌&&◌, if◌then◌else◌,
}
use lexicode.Domain.RunState.{RunState, provisioning, running, completed, failed, same_state}
use lexicode.Domain.Words.{Key, blank, Time, Words, restarted}
use lexicode.Domain.Rows.{Run}
use lexicode.Store.Db.{Db}
use lexicode.Sched.Kernel.{
  Supervisor, Kernel, db_of, cancel_pending_elicitations, drop_messages, revoke, wake,
}
use lexicode.Sched.Supervise.{
  Waited, Ending, outcome_of, PreserveOutcome, record_partial_work, tear_down, move_to, finish,
  forget, session_over, provision_over, launch_over, unmanned, provisioned,
}
use lexicode.Sched.Enqueue.{with_db}
use lexicode.Sched.Reconcile.{present, bury, reattach, reconcile_one, reconcile_all, reconcile}
use lexicode.Sched.Board.{Board}
use lexicode.Sched.Board.Writes.{Grows, Legal, transition-Grows, set_provisioned-Grows}
use lexicode.Sched.Board.Stops.{supervise_from-db, cancel_pending-db, drop_messages-Grows}

record_partial_work-db :
    (now : Time) (id branch : Key) (k : Kernel)
    → db_of (record_partial_work now id branch k) ≡ db_of k
unfolding record_partial_work
record_partial_work-db now id branch k = ground arith

module _ (races : Key → List (Db → Db)) (legal : Legal races) (now : Time) (b : Board) where
  move_to-Grows :
      (id : Key) (kind : RunState) (reason message : Words) (k : Kernel)
      → Grows b (db_of k)
      → Grows b (db_of (move_to races now id kind reason message k))
  unfolding move_to
  move_to-Grows id kind reason message k g = transition-Grows races legal now b k.world id kind _ g

  closed-Grows :
      (id : Key) (k : Kernel)
      → Grows b (db_of k)
      → Grows b (db_of (drop_messages id (cancel_pending_elicitations now id k)))
  closed-Grows id k g =
      drop_messages-Grows races legal now b id (cancel_pending_elicitations now id k)
        (subst (Grows b) (sym (cancel_pending-db now id k)) g)

  tear_down-Grows :
      (id : Key) (k : Kernel) → Grows b (db_of k) → Grows b (db_of (tear_down races now id k))
  unfolding tear_down revoke
  tear_down-Grows id k g = closed-Grows id (revoke id k) g

  partial-Grows :
      (done : Bool) (id branch : Key) (k : Kernel)
      → Grows b (db_of k)
      → Grows b (db_of (if done then record_partial_work now id branch k else k))
  partial-Grows true id branch k g =
      subst (Grows b) (sym (record_partial_work-db now id branch k)) g
  partial-Grows false id branch k g = g

  finish-Grows :
      (run : Run) (p : PreserveOutcome) (e : Ending) (k : Kernel)
      → Grows b (db_of k)
      → Grows b (db_of (finish races now run p e k))
  unfolding finish wake
  finish-Grows run p (kind, reason, message) k g = move_to-Grows run.id kind reason _ _ (
      tear_down-Grows run.id _
        (partial-Grows (p.pushed && not (same_state kind completed)) run.id p.branch k g))

  forget-Grows : (id : Key) (k : Kernel) → Grows b (db_of k) → Grows b (db_of (forget id k))
  unfolding forget
  forget-Grows id k g = g

  pub session_over-Grows :
      (run : Run) (sup : Supervisor) (p : PreserveOutcome) (w : Waited) (k : Kernel)
      → Grows b (db_of k)
      → Grows b (db_of (session_over races now run sup p w k))
  unfolding session_over
  session_over-Grows run sup p w k g =
      grind (arith, forget-Grows, finish-Grows run p (outcome_of sup w) k g)

  pub provision_over-Grows :
      (run : Run) (sup : Supervisor) (p : PreserveOutcome) (message : Key) (k : Kernel)
      → Grows b (db_of k)
      → Grows b (db_of (provision_over races now run sup p message k))
  unfolding provision_over
  provision_over-Grows run sup p message k g = grind (arith, forget-Grows, finish-Grows)

  pub launch_over-Grows :
      (run : Run) (p : PreserveOutcome) (message : Key) (k : Kernel)
      → Grows b (db_of k)
      → Grows b (db_of (launch_over races now run p message k))
  unfolding launch_over
  launch_over-Grows run p message k g = grind (arith, forget-Grows, finish-Grows)

  pub unmanned-Grows :
      (run : Run) (k : Kernel) → Grows b (db_of k) → Grows b (db_of (unmanned races now run k))
  unfolding unmanned
  unmanned-Grows run k g = forget-Grows run.id _ (finish-Grows run _ _ k g)

  pub provisioned-Grows :
      (run : Run) (i branch : Key) (k : Kernel)
      → Grows b (db_of k)
      → Grows b (db_of (provisioned races now run i branch k).0)
  unfolding provisioned with_db
  provisioned-Grows run i branch k g =
      transition-Grows races legal now b _ run.id running _
        (set_provisioned-Grows b (db_of k) run.id i blank branch blank g)

  bury-Grows :
      (alive : Run → Bool) (run : Run) (k : Kernel)
      → Grows b (db_of k)
      → Grows b (db_of (bury races now alive run k))
  unfolding bury
  bury-Grows alive run k g = elim (Option-cases (present run.branch)) [
    | inl e ↦ rw (e, bury) (closed-Grows run.id _ (move_to-Grows run.id failed restarted _ k g))
    | inr (branch, e) ↦
        rw (e, bury)
          (closed-Grows run.id _
            (move_to-Grows run.id failed restarted _ _ (partial-Grows true run.id branch k g)))
  ]

  reattach-Grows :
      (alive : Run → Bool) (run : Run) (k : Kernel)
      → Grows b (db_of k)
      → Grows b (db_of (reattach races now alive run k))
  unfolding reattach
  reattach-Grows alive run k g = elim (Bool-cases (same_state run.state provisioning)) [
    | inl e ↦
        rw (e, reattach)
          (subst (Grows b) (sym (supervise_from-db run.id _))
            (transition-Grows races legal now b k.world run.id running _ g))
    | inr e ↦ rw (e, reattach) (subst (Grows b) (sym (supervise_from-db run.id k)) g)
  ]

  reconcile_one-Grows :
      (alive : Run → Bool) (run : Run) (k : Kernel)
      → Grows b (db_of k)
      → Grows b (db_of (reconcile_one races now alive run k))
  unfolding reconcile_one
  reconcile_one-Grows alive run k g = grind (arith, reattach-Grows, bury-Grows)

  reconcile_all-Grows :
      (alive : Run → Bool) (runs : List Run) (k : Kernel)
      → Grows b (db_of k)
      → Grows b (db_of (reconcile_all races now alive runs k))
  unfolding reconcile_all
  reconcile_all-Grows alive [] k g = g
  reconcile_all-Grows alive (run ∷ runs) k g =
      reconcile_all-Grows alive runs (reconcile_one races now alive run k)
        (reconcile_one-Grows alive run k g)

  pub reconcile-Grows :
      (alive : Run → Bool) (k : Kernel)
      → Grows b (db_of k)
      → Grows b (db_of (reconcile races now alive k).0)
  unfolding reconcile
  reconcile-Grows alive k g = grind (arith, reconcile_all-Grows)
