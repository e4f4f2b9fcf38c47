-- ===== src/Sched/Admission/Capacity.antt =====
-- The admission pass of internal/kernel/sched/admission.go keeps the workspace's container limit.
use Prim.Native.Nat.{max}
use lexicode.Prelude.{
  ap, subst, ℕ, ◌≤◌, ◌<◌, ◌≡◌, refl, sym, Bool, Bool-cases, Result-cases, Option-cases, inl, inr,
  List, [], ◌∷◌, Option, none, some, Result, ok, err, arith,
}
use lexicode.Domain.RunState.{queued, provisioning}
use lexicode.Domain.Words.{Key, Time, Words, silence}
use lexicode.Domain.Rows.{Run, Agent, Column, Workspace}
use lexicode.Store.Db.{Db, StoreError, get_workspace}
use lexicode.Store.Runs.{RunStateUpdate, no_update}
use lexicode.Store.Runs.Laws.{HasKeys}
use lexicode.Store.Queries.{by_state, active_count, active_count_by_agent}
use lexicode.Sched.World.{World}
use lexicode.Sched.States.{Round, settled, lost, transition}
use lexicode.Sched.States.Effect.{transition-err}
use lexicode.Sched.States.Settles.{transition-settles}
use lexicode.Sched.Admission.Slots.{
  slots, quiet, Holds, admit-Holds, fail-Holds, hold-Holds, drop_queued-Holds, wip_check-global,
}
use lexicode.Sched.Admission.{
  Counters, WipAnswer, clear, held, wip_check, hold, fail_queued, admit, check_agent_budget,
  check_budgets, check_containers, after_wip, check_wip, admit_one, admit_all, admit_pass,
}

-- The counter of containers covers the slots in use, and is at most `n`.
Fits : ℕ → World × Counters → Type 0
Fits n p = Holds p.1.global p.0.db × (p.1.global ≤ n)

Fits-counters :
    (n : ℕ) (w : World) (c c' : Counters) → c.global ≡ c'.global → Fits n (w, c) → Fits n (w, c')
unfolding Fits
Fits-counters n w c c' e h = (rw e at h.0, rw e at h.1)

module _ (now : Time) (day : ℕ) (n : ℕ) where
  fail_queued-Fits :
      (w : World) (run : Run) (reason message : Words) (c : Counters)
      → Fits n (w, c)
      → Fits n (fail_queued quiet now day w run reason message, c)
  unfolding Fits fail_queued
  fail_queued-Fits w run reason message c h =
      (drop_queued-Holds c.global _ run.id (fail-Holds c.global now w run.id _ h.0), h.1)

  hold-Fits :
      (w : World) (run : Run) (reason : Words) (c : Counters)
      → Fits n (w, c)
      → Fits n (hold w run reason, c)
  unfolding Fits
  hold-Fits w run reason c h = (hold-Holds c.global w run reason h.0, h.1)

  admit-Fits :
      (w : World) (run : Run) (agent : Agent) (dest : Option Column) (c : Counters)
      → Fits n (w, c)
      → c.global < n
      → Fits n (admit quiet now day w run agent dest c)
  unfolding Fits admit
  admit-Fits w run agent dest c h free = go (transition [] now w run.id provisioning u).1 refl
    where
      u : RunStateUpdate
      u = record no_update { hold_reason = some silence }

      go :
          (r : Round)
          → (transition [] now w run.id provisioning u).1 ≡ r
          → Fits n (admit quiet now day w run agent dest c)
      go (settled (ok after)) e =
          rw (e, admit) (admit-Holds c.global now w run.id u h.0, omega arith)
      go (settled (err x)) e =
          rw (e, admit)
            (subst (Holds c.global) (sym (transition-err now w run.id provisioning u e)) h.0, h.1)
      go lost e = absurd (transition-settles [] now w run.id provisioning u e)

  check_agent_budget-Fits :
      (w : World) (run : Run) (agent : Agent) (dest : Option Column) (c : Counters)
      → Fits n (w, c)
      → c.global < n
      → Fits n (check_agent_budget quiet now day w run agent dest c)
  unfolding check_agent_budget
  check_agent_budget-Fits w run agent dest c h free =
      grind (arith, admit-Fits w run agent dest c h free, fail_queued-Fits)

  check_budgets-Fits :
      (w : World) (ws : Workspace) (run : Run) (agent : Agent) (dest : Option Column) (c : Counters)
      → Fits n (w, c)
      → c.global < n
      → Fits n (check_budgets quiet now day w ws run agent dest c)
  unfolding check_budgets
  check_budgets-Fits w ws run agent dest c h free =
      grind (arith, check_agent_budget-Fits w run agent dest c h free, fail_queued-Fits)

  module _ (ws : Workspace) (capped : 0 < ws.max_concurrent_containers)
      (fits : ws.max_concurrent_containers ≤ n) where
    check_containers-Fits :
        (w : World) (run : Run) (agent : Agent) (dest : Option Column) (c : Counters)
        → Fits n (w, c)
        → Fits n (check_containers quiet now day w ws run agent dest c)
    unfolding check_containers
    check_containers-Fits w run agent dest c h =
        grind (arith, check_budgets-Fits w ws run agent dest c h, hold-Fits w run _ c h)

    after_wip-Fits :
        (w : World) (run : Run) (agent : Agent) (c : Counters)
        (answer : Result StoreError WipAnswer)
        → Fits n (w, c)
        → Fits n (after_wip quiet now day w ws run agent c answer)
    unfolding after_wip
    after_wip-Fits w run agent c (err e) h = h
    after_wip-Fits w run agent c (ok (held reason)) h = hold-Fits w run reason c h
    after_wip-Fits w run agent c (ok (clear dest)) h = check_containers-Fits w run agent dest c h

    check_wip-Fits :
        (w : World) (run : Run) (agent : Agent) (c : Counters)
        → Fits n (w, c)
        → Fits n (check_wip quiet now day w ws run agent c)
    unfolding check_wip
    check_wip-Fits w run agent c h = elim (Option-cases run.ticket_id) [
      | inl e ↦ rw (e, check_wip) (check_containers-Fits w run agent none c h)
      | inr (t, e) ↦
          rw (e, check_wip)
            (after_wip-Fits w run agent (wip_check w.db run.project_id t c).1
              (wip_check w.db run.project_id t c).0
              (Fits-counters n w c _ (sym (wip_check-global w.db run.project_id t c)) h))
    ]

    admit_one-Fits :
        (w : World) (run : Run) (c : Counters)
        → Fits n (w, c)
        → Fits n (admit_one quiet now day w ws run c)
    unfolding admit_one
    admit_one-Fits w run c h = grind (arith, check_wip-Fits, hold-Fits, fail_queued-Fits)

    admit_all-Fits :
        (ended : Run → Bool) (w : World) (runs : List Run) (c : Counters)
        → Fits n (w, c)
        → Fits n (admit_all quiet now day ended w ws runs c)
    unfolding admit_all
    admit_all-Fits ended w [] c h = h
    admit_all-Fits ended w (run ∷ runs) c h = elim (Bool-cases (ended run)) [
      | inl e ↦ rw e h
      | inr e ↦ rw e (
          let first = admit_one quiet now day w ws run c in
          admit_all-Fits ended first.0 runs first.1 (admit_one-Fits w run c h))
    ]

get_workspace-ok : (db : Db) {ws : Workspace} → get_workspace db ≡ ok ws → db.workspace ≡ ws
unfolding get_workspace
get_workspace-ok db {ws} h = ground arith

active_count-ok : (db : Db) {g : ℕ} → active_count db ≡ ok g → slots db ≡ g
unfolding active_count slots
active_count-ok db {g} h = ground arith

-- The pass over the queue, from the workspace and the count that were read.
admit_all-slots :
    (now : Time) (day : ℕ) (ended : Run → Bool) (w : World) (ws : Workspace) (runs : List Run)
    (by_agent : Key → ℕ) (g : ℕ)
    → HasKeys w.db
    → 0 < w.db.workspace.max_concurrent_containers
    → get_workspace w.db ≡ ok ws
    → active_count w.db ≡ ok g
    → slots
        (admit_all quiet now day ended w ws runs
          (record { by_agent = by_agent; global = g; column_tickets = [] })).0.db
      ≤ max w.db.workspace.max_concurrent_containers (slots w.db)
admit_all-slots now day ended w ws runs by_agent g keys capped e d =
    omega (arith, last.0.room, last.1)
  where
    n : ℕ
    n = max w.db.workspace.max_concurrent_containers (slots w.db)

    c : Counters
    c = record { by_agent = by_agent; global = g; column_tickets = [] }

    start : Fits n (w, c)
    start =
        unfold Fits in
        (
          record { keys = keys; room = omega (arith, active_count-ok w.db d) },
          omega (arith, active_count-ok w.db d),
        )

    limit : ws.max_concurrent_containers ≡ w.db.workspace.max_concurrent_containers
    limit = ap (λ (x : Workspace). x.max_concurrent_containers) (sym (get_workspace-ok w.db e))

    last :
        Holds
          (admit_all quiet now day ended w ws runs c).1.global
          (admit_all quiet now day ended w ws runs c).0.db
        × ((admit_all quiet now day ended w ws runs c).1.global ≤ n)
    last =
        unfold Fits in
        admit_all-Fits now day n ws (omega (arith, limit)) (omega (arith, limit)) ended w runs c
          start

-- An admission pass that no other writer disturbs leaves at most as many runs in container slots as
-- the workspace allows, or as there were before the pass if those were more already.
pub admit_pass-slots :
    (now : Time) (day : ℕ) (ended : Run → Bool) (w : World)
    → HasKeys w.db
    → 0 < w.db.workspace.max_concurrent_containers
    → slots (admit_pass quiet now day ended w).db
      ≤ max w.db.workspace.max_concurrent_containers (slots w.db)
unfolding admit_pass
admit_pass-slots now day ended w keys capped = elim (Result-cases (by_state w.db queued)) [
  | inr (x, e) ↦ rw (e, admit_pass) (omega arith)
  | inl ([], e) ↦ rw (e, admit_pass) (omega arith)
  | inl (run ∷ runs, e) ↦ elim (Result-cases (get_workspace w.db)) [
    | inr (x, f) ↦ rw (e, admit_pass) (rw f (omega arith))
    | inl (ws, f) ↦ elim (Result-cases (active_count_by_agent w.db)) [
      | inr (x, k) ↦ rw (e, admit_pass) (rw (f, k) (omega arith))
      | inl (by_agent, k) ↦ elim (Result-cases (active_count w.db)) [
        | inr (x, d) ↦ rw (e, admit_pass) (rw (f, k, d) (omega arith))
        | inl (g, d) ↦
            rw (e, admit_pass)
              (rw (f, k, d)
                (admit_all-slots now day ended w ws (run ∷ runs) by_agent g keys capped f d))
      ]
    ]
  ]
]
