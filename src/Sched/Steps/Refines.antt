-- ===== src/Sched/Steps/Refines.antt =====
-- Every operation of internal/kernel/sched refines the board of states.
use lexicode.Prelude.{ap, subst, sym, ℕ, ◌≡◌, refl, true, ok, err, List, [], ◌∷◌, ◌∙◌, arith}
use lexicode.Prelude.Lists.{get_elem?}
use lexicode.Domain.RunState.{RunState, is_terminal}
use lexicode.Domain.Words.{Key, Time, Words}
use lexicode.Domain.Rows.{Run}
use lexicode.Store.Db.{Db}
use lexicode.Sched.World.{World}
use lexicode.Sched.States.{Round, settled, lost, set_run_state}
use lexicode.Sched.Kernel.{Kernel, db_of, start_all, with_supervisor}
use lexicode.Sched.Supervise.{launched}
use lexicode.Sched.Clock.{set_run_state_of, note_park, seed_parked}
use lexicode.Sched.Board.{Board, board, ◌⇒*◌, stays}
use lexicode.Sched.Machine.{terminal-⟶*}
use lexicode.Sched.Board.Laws.{is_at, Comes, ⇒*-Comes}
use lexicode.Sched.Board.Rows.{⇒*-trans}
use lexicode.Sched.Board.Writes.{Grows, Legal, transition-Grows}
use lexicode.Sched.Board.Admission.{admit_pass-Grows}
use lexicode.Sched.Board.Stops.{
  supervise_from-db, stop_run-Grows, takeover_run-Grows, cancel_ticket_runs-Grows,
}
use lexicode.Sched.Board.Births.{enqueue-Grows, enqueue_loop_stopped-Grows}
use lexicode.Sched.Board.Endings.{
  session_over-Grows, provision_over-Grows, launch_over-Grows, unmanned-Grows, provisioned-Grows,
  reconcile-Grows,
}
use lexicode.Sched.Steps.{
  admit_runs, refuse_run, ◌▷◌, enqueues, refuses, admits, stops, takes_over, cancels, asks_human,
  provisions, launches, seeds, ticks, ends, not_provisioned, not_launched, no_agent, recovers, ◌▷*◌,
  idle, then_step,
}

start_all-db : (runs : List Run) (k : Kernel) → db_of (start_all runs k) ≡ db_of k
unfolding start_all
start_all-db [] k = refl
start_all-db (run ∷ runs) k = supervise_from-db run.id (start_all runs k) ∙ start_all-db runs k

seed_parked-db : (now : Time) (run : Run) (k : Kernel) → db_of (seed_parked now run k) ≡ db_of k
unfolding seed_parked with_supervisor
seed_parked-db now run k = ground arith

module _ (races : Key → List (Db → Db)) (legal : Legal races) (now : Time) (b : Board) where
  set_run_state-Grows :
      (w : World) (id : Key) (to : RunState) (why : Words)
      → Grows b w.db
      → Grows b (set_run_state (races id) now w id to why).0.db
  unfolding set_run_state
  set_run_state-Grows w id to why g = grind (arith, transition-Grows races legal now b w id to _ g)

  set_run_state_of-Grows :
      (id : Key) (to : RunState) (why : Words) (k : Kernel)
      → Grows b (db_of k)
      → Grows b (db_of (set_run_state_of races now id to why k).0)
  unfolding set_run_state_of note_park with_supervisor
  set_run_state_of-Grows id to why k g = go (set_run_state (races id) now k.world id to why).1 refl
    where
      go :
          (r : Round)
          → (set_run_state (races id) now k.world id to why).1 ≡ r
          → Grows b (db_of (set_run_state_of races now id to why k).0)
      go (settled (ok run)) e = rw (e, set_run_state_of) (set_run_state-Grows k.world id to why g)
      go (settled (err x)) e = rw (e, set_run_state_of) (set_run_state-Grows k.world id to why g)
      go lost e = rw (e, set_run_state_of) (set_run_state-Grows k.world id to why g)

▷-Grows : (b : Board) {k m : Kernel} → k ▷ m → Grows b (db_of k) → Grows b (db_of m)
▷-Grows b {k} (enqueues races legal now id entry subject assemble req) g =
    enqueue-Grows races legal now id entry subject assemble b k req g
▷-Grows b {k} (refuses id now req) g =
    unfold refuse_run in enqueue_loop_stopped-Grows b id now k.world req g
▷-Grows b {k} (admits races legal now day ended) g =
    unfold admit_runs in
    subst (Grows b) (sym (start_all-db _ _)) (admit_pass-Grows races legal now day b ended _ g)
▷-Grows b {k} (stops races legal now id why) g = stop_run-Grows races legal now b k id why g
▷-Grows b {k} (takes_over races legal now id note) g =
    takeover_run-Grows races legal now b k id note g
▷-Grows b {k} (cancels races legal now ticket why) g =
    cancel_ticket_runs-Grows races legal now b k ticket why g
▷-Grows b {k} (asks_human races legal now id to why) g =
    set_run_state_of-Grows races legal now b id to why k g
▷-Grows b {k} (provisions races legal now run i branch) g =
    provisioned-Grows races legal now b run i branch k g
▷-Grows b {k} (launches id) g = unfold launched with_supervisor in g
▷-Grows b {k} (seeds now run) g = subst (Grows b) (sym (seed_parked-db now run k)) g
▷-Grows b {k} (ticks id seconds) g = unfold with_supervisor in g
▷-Grows b {k} (ends races legal now run sup p w) g =
    session_over-Grows races legal now b run sup p w k g
▷-Grows b {k} (not_provisioned races legal now run sup p message) g =
    provision_over-Grows races legal now b run sup p message k g
▷-Grows b {k} (not_launched races legal now run p message) g =
    launch_over-Grows races legal now b run p message k g
▷-Grows b {k} (no_agent races legal now run) g = unmanned-Grows races legal now b run k g
▷-Grows b {k} (recovers races legal now alive) g = reconcile-Grows races legal now b alive k g

-- Every operation of the run engine, whatever statements fail and whatever legal transitions other
-- writers make meanwhile, is on the board a sequence of births, in the states queued or loop_stopped at
-- the end of the table, and of moves of single runs along edges of the state machine.
pub ▷-⇒* : {k m : Kernel} → k ▷ m → board (db_of k).runs ⇒* board (db_of m).runs
▷-⇒* {k} s = (▷-Grows (board (db_of k).runs) s (record { path = stays })).path

pub ▷*-⇒* : {k m : Kernel} → k ▷* m → board (db_of k).runs ⇒* board (db_of m).runs
▷*-⇒* idle = stays
▷*-⇒* (then_step p s) = ⇒*-trans (▷*-⇒* p) (▷-⇒* s)

-- However the operations of the run engine interleave, a run that has ended is never touched again: its
-- row stays at its place in the table, with its key and its state. A row of a run that has not ended stays
-- at its place with its key too, in a state that a path of the state machine leads to.
pub ▷*-Comes :
    {k m : Kernel} (i : ℕ) (id : Key) (s : RunState)
    → k ▷* m
    → get_elem? (board (db_of k).runs) i ≡ is_at id s
    → Comes (board (db_of m).runs) i id s
      × (is_terminal s ≡ true → get_elem? (board (db_of m).runs) i ≡ is_at id s)
▷*-Comes i id s steps at =
    let (t, there, path) = ⇒*-Comes i id s (▷*-⇒* steps) at in
    ((t, there, path), λ over. rw there (ap (is_at id) (terminal-⟶* over path)))
