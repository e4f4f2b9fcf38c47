-- ===== src/Sched/Admission.antt =====
-- internal/kernel/sched/admission.go: which queued runs start. The pass reads the queue and the
-- occupied capacity once, and evaluates the runs in queue order.
-- `races run` is what other writers do during the transition of that run, and `ended run` says that
-- the context has ended when the pass reaches that run.
pub mod Slots
pub mod Capacity
pub mod Wip
use lexicode.Prelude.{
  ℕ, suc, ◌+◌, Bool, true, false, ◌&&◌, List, [], ◌∷◌, Option, none, some, Result, ok, err, ◌==◌,
  ltb, leb, if◌then◌else◌,
}
use lexicode.Domain.RunState.{RunState, queued, provisioning, failed, is_running}
use lexicode.Domain.Words.{
  Key, blank, Time, Words, Words-discrete, silence, agent_at_limit, column_at_limit,
  workspace_at_limit, agent_missing, agent_gone, budget_exceeded, project_spent, agent_spent,
}
use lexicode.Domain.Rows.{Run, Agent, Column, Project, Workspace, Ticket}
use lexicode.Store.Db.{
  Db, StoreError, agent_by_id, ticket_by_id, column_by_id, project_by_id, get_workspace,
}
use lexicode.Store.Runs.{RunStateUpdate, no_update, set_hold_reason}
use lexicode.Store.Budget.{project_day, agent_day}
use lexicode.Store.Queries.{
  by_state, active_count_by_agent, active_count, running_columns, tickets_in_column, drop_queued,
}
use lexicode.Sched.World.{World, published}
use lexicode.Sched.States.{settled, lost, transition}

-- `admitCounters`; the map of columns holds the columns counted so far.
pub record Counters : Type 0 where
  pub by_agent : Key → ℕ
  pub global : ℕ
  pub column_tickets : List (Key × ℕ)

unfoldable pub counted : Key → List (Key × ℕ) → Option ℕ
counted k [] = none
counted k ((j, n) ∷ m) = if j == k then some n else counted k m

-- `m[k] = n`
abbrev pub put : Key → ℕ → List (Key × ℕ) → List (Key × ℕ)
put k n m = (k, n) ∷ m

-- `m[k]`, where a missing key reads as 0.
abbrev pub or_zero : Option ℕ → ℕ
or_zero none = 0
or_zero (some n) = n

-- The column and no reason, or the reason why the run is held.
pub data WipAnswer : Type 0 where
  clear : Option Column → WipAnswer
  held : Words → WipAnswer

-- The comparison with the limit, when the column's count is in the map.
unfoldable pub compare_wip : Column → (limit count : ℕ) → WipAnswer
compare_wip dest limit count =
    if leb limit count then held (column_at_limit dest.name count limit) else clear (some dest)

unfoldable pub count_wip :
    Db → Column → (limit : ℕ) → Counters → Result StoreError WipAnswer × Counters
unfolding counted compare_wip
count_wip db dest limit c = elim (counted dest.id c.column_tickets) [
  | some n ↦ (ok (compare_wip dest limit n), c)
  | none ↦ elim (tickets_in_column db dest.id) [
    | err e ↦ (err e, c)
    | ok n ↦ (
      ok (compare_wip dest limit n),
      record c { column_tickets = put dest.id n c.column_tickets },
    )
  ]
]

-- `wipCheck` from the point where the destination is known.
unfoldable pub wip_at :
    Db → (current dest : Column) → Counters → Result StoreError WipAnswer × Counters
unfolding count_wip
wip_at db current dest c = elim dest.wip_limit [
  | none ↦ (ok (clear (some dest)), c)
  | some limit ↦
      if limit == 0
      then (ok (clear (some dest)), c)
      else if dest.id == current.id
      then (ok (clear (some dest)), c)
      else count_wip db dest limit c
]

unfoldable pub wip_check :
    Db → (project ticket : Key) → Counters → Result StoreError WipAnswer × Counters
unfolding wip_at
wip_check db project ticket c = elim (ticket_by_id db ticket) [
  | err e ↦ (err e, c)
  | ok t ↦ elim (column_by_id db t.column_id) [
    | err e ↦ (err e, c)
    | ok current ↦
        if is_running current.category
        then wip_at db current current c
        else elim (running_columns db project) [
          | err e ↦ (err e, c)
          | ok [] ↦ (ok (clear none), c)
          | ok (dest ∷ others) ↦ wip_at db current dest c
        ]
  ]
]

-- The write of a new reason, and the event if it succeeded.
unfoldable pub hold_anew : World → Run → Words → World
hold_anew w run reason =
    let (db, wrote) = set_hold_reason w.db run.id reason in
    elim wrote [
      | err e ↦ record w { db = db }
      | ok done ↦ published (record run { hold_reason = reason }) (record w { db = db })
    ]

unfoldable pub hold_if : {A : Type 0} → Dec A → World → Run → Words → World
hold_if (yes same) w run reason = w
hold_if (no changed) w run reason = hold_anew w run reason

-- `hold`: nothing is written when the run is held for this reason already.
unfoldable pub hold : World → Run → Words → World
unfolding hold_if
hold w run reason = hold_if (Words-discrete run.hold_reason reason) w run reason

module _ (races : Run → List (Db → Db)) (now : Time) (day : ℕ) where
  -- `failQueued`
  unfoldable pub fail_queued : World → Run → (reason message : Words) → World
  unfolding drop_queued
  fail_queued w run reason message =
      let u = record no_update { state_reason = some reason; error_message = some message } in
      let w' = (transition (races run) now w run.id failed u).0 in
      record w' { db = drop_queued w'.db run.id }

  -- Admitted: the transition, the counters, the supervisor.
  unfoldable pub admit : World → Run → Agent → Option Column → Counters → World × Counters
  unfolding counted
  admit w run agent dest c =
      let u = record no_update { hold_reason = some silence } in
      let (w', res) = transition (races run) now w run.id provisioning u in
      let c' = record c {
        by_agent = λ a. if a == agent.id then c.by_agent a + 1 else c.by_agent a;
        global = c.global + 1;
        column_tickets = elim dest [
          | none ↦ c.column_tickets
          | some col ↦ put col.id (or_zero (counted col.id c.column_tickets) + 1) c.column_tickets
        ];
      } in
      elim res [
        | settled (ok after) ↦ (record w' { launched = after ∷ w'.launched }, c')
        | settled (err e) ↦ (w', c)
        | lost ↦ (w', c)
      ]

  -- Check 4, the agent's half.
  unfoldable pub check_agent_budget :
      World → Run → Agent → Option Column → Counters → World × Counters
  check_agent_budget w run agent dest c = elim agent.daily_cap_cents [
    | none ↦ admit w run agent dest c
    | some cap ↦ if cap == 0 then admit w run agent dest c else elim (agent_day w.db day agent.id) [
      | err e ↦ (w, c)
      | ok spent ↦
          if leb cap spent
          then (fail_queued w run budget_exceeded (agent_spent agent.name spent cap), c)
          else admit w run agent dest c
    ]
  ]

  -- The budget of the project, the workspace's default where it sets none or cannot be read.
  unfoldable pub daily_budget : World → Workspace → Run → (name : Key) × ℕ
  daily_budget w ws run = elim (project_by_id w.db run.project_id) [
    | err e ↦ (blank, ws.default_daily_budget_cents)
    | ok p ↦ elim p.daily_budget_cents [
      | none ↦ (p.name, ws.default_daily_budget_cents)
      | some b ↦ (p.name, b)
    ]
  ]

  -- Check 4.
  unfoldable pub check_budgets :
      World → Workspace → Run → Agent → Option Column → Counters → World × Counters
  check_budgets w ws run agent dest c =
      let (name, budget) = daily_budget w ws run in
      if budget == 0
      then check_agent_budget w run agent dest c
      else elim (project_day w.db day run.project_id) [
        | err e ↦ (w, c)
        | ok spent ↦
            if leb budget spent
            then (fail_queued w run budget_exceeded (project_spent name spent budget), c)
            else check_agent_budget w run agent dest c
      ]

  -- Check 3.
  unfoldable pub check_containers :
      World → Workspace → Run → Agent → Option Column → Counters → World × Counters
  check_containers w ws run agent dest c =
      if ltb 0 ws.max_concurrent_containers && leb ws.max_concurrent_containers c.global
      then (hold w run (workspace_at_limit ws.max_concurrent_containers), c)
      else check_budgets w ws run agent dest c

  -- What `admitOne` does with the answer of `wipCheck`.
  unfoldable pub after_wip :
      World → Workspace → Run → Agent → Counters → Result StoreError WipAnswer → World × Counters
  after_wip w ws run agent c (err e) = (w, c)
  after_wip w ws run agent c (ok (held reason)) = (hold w run reason, c)
  after_wip w ws run agent c (ok (clear dest)) = check_containers w ws run agent dest c

  -- Check 2.
  unfoldable pub check_wip : World → Workspace → Run → Agent → Counters → World × Counters
  check_wip w ws run agent c = elim run.ticket_id [
    | none ↦ check_containers w ws run agent none c
    | some ticket ↦
        (let (answer, c') = wip_check w.db run.project_id ticket c in
          after_wip w ws run agent c' answer)
  ]

  -- Check 1.
  unfoldable pub admit_one : World → Workspace → Run → Counters → World × Counters
  admit_one w ws run c = elim (agent_by_id w.db run.agent_id) [
    | err e ↦ (fail_queued w run agent_missing agent_gone, c)
    | ok agent ↦
        if ltb 0 agent.concurrency_cap && leb agent.concurrency_cap (c.by_agent agent.id)
        then (hold w run (agent_at_limit agent.name agent.concurrency_cap), c)
        else check_wip w ws run agent c
  ]

  -- The loop of `admitPass`.
  unfoldable pub admit_all :
      (ended : Run → Bool) → World → Workspace → List Run → Counters → World × Counters
  admit_all ended w ws [] c = (w, c)
  admit_all ended w ws (run ∷ runs) c =
      let (w', c') = admit_one w ws run c in
      let rest = admit_all ended w' ws runs c' in if ended run then (w, c) else rest

  unfoldable pub admit_pass : (ended : Run → Bool) → World → World
  admit_pass ended w = elim (by_state w.db queued) [
    | err e ↦ w
    | ok [] ↦ w
    | ok (run ∷ runs) ↦ elim (get_workspace w.db) [
      | err e ↦ w
      | ok ws ↦ elim (active_count_by_agent w.db) [
        | err e ↦ w
        | ok by_agent ↦ elim (active_count w.db) [
          | err e ↦ w
          | ok global ↦
              (admit_all ended w ws (run ∷ runs)
                (record { by_agent = by_agent; global = global; column_tickets = [] })).0
        ]
      ]
    ]
  ]
