-- ===== src/Guard/Budget.antt =====
-- internal/kernel/guard/layers.go: `checkBudget`, layer 5.
use lexicode.Prelude.{
  ℕ, List, [], ◌∷◌, Option, none, some, Result, ok, err, ◌==◌, leb, if◌then◌else◌,
}
use lexicode.Domain.Words.{Key, Words, project_spent, agent_spent, rule_spent}
use lexicode.Domain.Rows.{Project}
use lexicode.Store.Db.{Db, StoreError, agent_by_id, project_by_id, get_workspace}
use lexicode.Store.Budget.{project_day, agent_day, trigger_day}
use lexicode.Guard.{Config, Input}

-- The project's ceiling: its own, else the workspace's, else none (0).
unfoldable pub ceiling_of : Db → Project → ℕ
ceiling_of db project = elim project.daily_budget_cents [
  | some own ↦ own
  | none ↦ elim (get_workspace db) [ ok ws ↦ ws.default_daily_budget_cents | err e ↦ 0 ]
]

-- The ceiling that is positive is reached: the spend, read from the ledger, is at least that much.
unfoldable pub reached : (ceiling : ℕ) → Result StoreError ℕ → Option ℕ
reached ceiling (err e) = none
reached ceiling (ok spent) =
    if ceiling == 0 then none else if leb ceiling spent then some spent else none

unfoldable pub project_over : Db → (day : ℕ) → Project → Option Words
unfolding reached ceiling_of
project_over db day project =
    elim (reached (ceiling_of db project) (project_day db day project.id)) [
      | some spent ↦ some (project_spent project.name spent (ceiling_of db project))
      | none ↦ none
    ]

unfoldable pub agent_over : Db → (day : ℕ) → Key → Option Words
unfolding reached
agent_over db day id = elim (agent_by_id db id) [
  | err e ↦ none
  | ok agent ↦ elim agent.daily_cap_cents [
    | none ↦ none
    | some cap ↦ elim (reached cap (agent_day db day id)) [
      | some spent ↦ some (agent_spent agent.name spent cap)
      | none ↦ none
    ]
  ]
]

-- The first agent of the list that is over its cap.
unfoldable pub agents_over : Db → (day : ℕ) → List Key → Option Words
unfolding agent_over
agents_over db day [] = none
agents_over db day (id ∷ ids) = elim (agent_over db day id) [
  | some reason ↦ some reason
  | none ↦ agents_over db day ids
]

unfoldable pub rule_over : Db → (day : ℕ) → (trigger : Key) → Option ℕ → Option Words
unfolding reached
rule_over db day trigger none = none
rule_over db day trigger (some cap) = elim (reached cap (trigger_day db day trigger)) [
  | some spent ↦ some (rule_spent spent cap)
  | none ↦ none
]

-- `checkBudget`: the reason to stop, if one of the three scopes is over.
unfoldable pub check_budget : Db → (day : ℕ) → Input → Config → Option Words
unfolding project_over agents_over rule_over
check_budget db day in_ cfg = elim (project_by_id db in_.trigger.project_id) [
  | err e ↦ none
  | ok project ↦ elim (project_over db day project) [
    | some reason ↦ some reason
    | none ↦ elim (agents_over db day in_.run_agent_ids) [
      | some reason ↦ some reason
      | none ↦ rule_over db day in_.trigger.id cfg.daily_budget_cents
    ]
  ]
]
