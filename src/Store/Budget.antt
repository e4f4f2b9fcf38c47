-- ===== src/Store/Budget.antt =====
-- internal/kernel/store/budget.go: the ledger of spend, by day, project, agent and trigger.
pub mod Laws
use lexicode.Prelude.{
  ℕ, ◌+◌, Bool, ◌&&◌, List, ◌∷◌, Option, Result, ok, err, ◌==◌, if◌then◌else◌, same_opt, holds,
  count_where, update_where, sum_where,
}
use lexicode.Domain.Words.{Key}
use lexicode.Domain.Rows.{LedgerRow}
use lexicode.Store.Db.{Db, Query, StoreError, io}
use lexicode.Store.Runs.{null_if}

-- The key of a cell: `IS` compares a NULL too.
unfoldable pub is_cell : (day : ℕ) (project : Key) (agent trigger : Option Key) → LedgerRow → Bool
is_cell day project agent trigger c =
    c.day == day
    && c.project_id == project
    && same_opt c.agent_id agent
    && same_opt c.trigger_id trigger

unfoldable pub add :
    Db → (day : ℕ) (project agent trigger : Key) (cents : ℕ) → Db × Result StoreError (Unit {0})
unfolding is_cell count_where update_where
add db day project agent trigger cents =
    let cell = is_cell day project (null_if agent) (null_if trigger) in
    let row : LedgerRow = record {
      day = day;
      project_id = project;
      agent_id = null_if agent;
      trigger_id = null_if trigger;
      cents = cents;
    } in
    let spent : List LedgerRow =
      update_where cell (λ c. record c { cents = c.cents + cents }) db.ledger in
    if cents == 0
    then (db, ok tt)
    else if db.outage Query.ledger_update
    then (db, err io)
    else if count_where cell db.ledger == 0
    then (if db.outage Query.ledger_insert
        then (db, err io)
        else (record db { ledger = row ∷ db.ledger }, ok tt))
    else (record db { ledger = spent }, ok tt)

unfoldable pub project_day : Db → (day : ℕ) (project : Key) → Result StoreError ℕ
unfolding sum_where
project_day db day project =
    if db.outage (Query.project_day project)
    then err io
    else ok (
        sum_where (λ (c : LedgerRow). c.day == day && c.project_id == project)
          (λ (c : LedgerRow). c.cents) db.ledger)

unfoldable pub agent_day : Db → (day : ℕ) (agent : Key) → Result StoreError ℕ
unfolding sum_where
agent_day db day agent =
    if db.outage (Query.agent_day agent)
    then err io
    else ok (
        sum_where (λ (c : LedgerRow). c.day == day && holds c.agent_id agent)
          (λ (c : LedgerRow). c.cents) db.ledger)

unfoldable pub trigger_day : Db → (day : ℕ) (trigger : Key) → Result StoreError ℕ
unfolding sum_where
trigger_day db day trigger =
    if db.outage (Query.trigger_day trigger)
    then err io
    else ok (
        sum_where (λ (c : LedgerRow). c.day == day && holds c.trigger_id trigger)
          (λ (c : LedgerRow). c.cents) db.ledger)
