-- ===== src/Sched/Board/Admission.antt =====
-- The admission pass of internal/kernel/sched/admission.go on the board.
use lexicode.Prelude.{
  ℕ, ◌≡◌, refl, Bool, Bool-cases, Option-cases, inl, inr, List, [], ◌∷◌, Option, none, some, Result,
  ok, err, arith,
}
use lexicode.Domain.RunState.{provisioning}
use lexicode.Domain.Words.{Key, Time, Words, silence}
use lexicode.Domain.Rows.{Run, Agent, Column, Workspace}
use lexicode.Store.Db.{Db, StoreError}
use lexicode.Store.Runs.{RunStateUpdate, no_update}
use lexicode.Sched.World.{World}
use lexicode.Sched.States.{Round, settled, lost, transition}
use lexicode.Sched.Admission.{
  Counters, WipAnswer, clear, held, wip_check, fail_queued, admit, check_agent_budget,
  check_budgets, check_containers, after_wip, check_wip, admit_one, admit_all, admit_pass,
}
use lexicode.Sched.Board.{Board}
use lexicode.Sched.Board.Writes.{Grows, Legal, transition-Grows, drop_queued-Grows, hold-Grows}

-- The transitions of a run.
abbrev pub of_run : (Key → List (Db → Db)) → Run → List (Db → Db)
of_run races run = races run.id

module _ (races : Key → List (Db → Db)) (legal : Legal races) (now : Time) (day : ℕ)
    (b : Board) where
  admit-Grows :
      (w : World) (run : Run) (agent : Agent) (dest : Option Column) (c : Counters)
      → Grows b w.db
      → Grows b (admit (of_run races) now day w run agent dest c).0.db
  unfolding admit
  admit-Grows w run agent dest c g =
      go (transition (races run.id) now w run.id provisioning u).1 refl
        (transition-Grows races legal now b w run.id provisioning u g)
    where
      u : RunStateUpdate
      u = record no_update { hold_reason = some silence }

      go :
          (r : Round)
          → (transition (races run.id) now w run.id provisioning u).1 ≡ r
          → Grows b (transition (races run.id) now w run.id provisioning u).0.db
          → Grows b (admit (of_run races) now day w run agent dest c).0.db
      go (settled (ok after)) e done = rw (e, admit) done
      go (settled (err x)) e done = rw (e, admit) done
      go lost e done = rw (e, admit) done

  fail_queued-Grows :
      (w : World) (run : Run) (reason message : Words)
      → Grows b w.db
      → Grows b (fail_queued (of_run races) now day w run reason message).db
  unfolding fail_queued
  fail_queued-Grows w run reason message g =
      drop_queued-Grows b _ run.id (transition-Grows races legal now b w run.id _ _ g)

  check_agent_budget-Grows :
      (w : World) (run : Run) (agent : Agent) (dest : Option Column) (c : Counters)
      → Grows b w.db
      → Grows b (check_agent_budget (of_run races) now day w run agent dest c).0.db
  unfolding check_agent_budget
  check_agent_budget-Grows w run agent dest c g = grind (arith, admit-Grows, fail_queued-Grows)

  check_budgets-Grows :
      (w : World) (ws : Workspace) (run : Run) (agent : Agent) (dest : Option Column) (c : Counters)
      → Grows b w.db
      → Grows b (check_budgets (of_run races) now day w ws run agent dest c).0.db
  unfolding check_budgets
  check_budgets-Grows w ws run agent dest c g =
      grind (arith, check_agent_budget-Grows, fail_queued-Grows)

  check_containers-Grows :
      (w : World) (ws : Workspace) (run : Run) (agent : Agent) (dest : Option Column) (c : Counters)
      → Grows b w.db
      → Grows b (check_containers (of_run races) now day w ws run agent dest c).0.db
  unfolding check_containers
  check_containers-Grows w ws run agent dest c g = grind (arith, check_budgets-Grows, hold-Grows)

  after_wip-Grows :
      (w : World) (ws : Workspace) (run : Run) (agent : Agent) (c : Counters)
      (answer : Result StoreError WipAnswer)
      → Grows b w.db
      → Grows b (after_wip (of_run races) now day w ws run agent c answer).0.db
  unfolding after_wip
  after_wip-Grows w ws run agent c (err e) g = g
  after_wip-Grows w ws run agent c (ok (held reason)) g = hold-Grows b w run reason g
  after_wip-Grows w ws run agent c (ok (clear dest)) g =
      check_containers-Grows w ws run agent dest c g

  check_wip-Grows :
      (w : World) (ws : Workspace) (run : Run) (agent : Agent) (c : Counters)
      → Grows b w.db
      → Grows b (check_wip (of_run races) now day w ws run agent c).0.db
  unfolding check_wip
  check_wip-Grows w ws run agent c g = elim (Option-cases run.ticket_id) [
    | inl e ↦ rw (e, check_wip) (check_containers-Grows w ws run agent none c g)
    | inr (t, e) ↦
        rw (e, check_wip)
          (after_wip-Grows w ws run agent (wip_check w.db run.project_id t c).1
            (wip_check w.db run.project_id t c).0 g)
  ]

  admit_one-Grows :
      (w : World) (ws : Workspace) (run : Run) (c : Counters)
      → Grows b w.db
      → Grows b (admit_one (of_run races) now day w ws run c).0.db
  unfolding admit_one
  admit_one-Grows w ws run c g = grind (arith, check_wip-Grows, hold-Grows, fail_queued-Grows)

  admit_all-Grows :
      (ended : Run → Bool) (w : World) (ws : Workspace) (runs : List Run) (c : Counters)
      → Grows b w.db
      → Grows b (admit_all (of_run races) now day ended w ws runs c).0.db
  unfolding admit_all
  admit_all-Grows ended w ws [] c g = g
  admit_all-Grows ended w ws (run ∷ runs) c g = elim (Bool-cases (ended run)) [
    | inl e ↦ rw e g
    | inr e ↦ rw e (
        let first = admit_one (of_run races) now day w ws run c in
        admit_all-Grows ended first.0 ws runs first.1 (admit_one-Grows w ws run c g))
  ]

  pub admit_pass-Grows :
      (ended : Run → Bool) (w : World)
      → Grows b w.db
      → Grows b (admit_pass (of_run races) now day ended w).db
  unfolding admit_pass
  admit_pass-Grows ended w g = grind (arith, admit_all-Grows)
