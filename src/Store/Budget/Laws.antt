-- ===== src/Store/Budget/Laws.antt =====
-- What a write to the ledger of internal/kernel/store/budget.go does to the sums of a day.
use lexicode.Prelude.{
  ℕ, ◌+◌, ◌≤◌, ◌≡◌, refl, Bool, true, false, ◌&&◌, List, [], ◌∷◌, Option, ok, ◌==◌, count_where,
  update_where, sum_where, arith,
}
use lexicode.Domain.Words.{Key}
use lexicode.Domain.Rows.{LedgerRow}
use lexicode.Store.Db.{Db, Query}
use lexicode.Store.Runs.{null_if}
use lexicode.Store.Budget.{is_cell, add, project_day}

abbrev pub cost : LedgerRow → ℕ
cost c = c.cents

abbrev raised : ℕ → LedgerRow → LedgerRow
raised n c = record c { cents = c.cents + n }

abbrev on_day : (day : ℕ) (project : Key) → LedgerRow → Bool
on_day day project c = c.day == day && c.project_id == project

module _ (day : ℕ) (project : Key) (agent trigger : Option Key) (n : ℕ) where
  cell : LedgerRow → Bool
  cell = is_cell day project agent trigger

  cell-on_day : (c : LedgerRow) → cell c ≡ true → on_day day project c ≡ true
  unfolding is_cell cell
  cell-on_day c h = ground arith

  sum_where-no_cell :
      (cells : List LedgerRow)
      → count_where cell cells ≡ 0
      → sum_where (on_day day project) cost (update_where cell (raised n) cells)
        ≡ sum_where (on_day day project) cost cells
  unfolding sum_where update_where count_where
  sum_where-no_cell [] h = refl
  sum_where-no_cell (c ∷ cs) h = ground (arith, sum_where-no_cell cs)

  sum_where-one_cell :
      (cells : List LedgerRow)
      → count_where cell cells ≡ 1
      → sum_where (on_day day project) cost (update_where cell (raised n) cells)
        ≡ sum_where (on_day day project) cost cells + n
  unfolding sum_where update_where count_where
  sum_where-one_cell [] h = ground arith
  sum_where-one_cell (c ∷ cs) h =
      ground (arith, sum_where-one_cell cs, sum_where-no_cell cs, cell-on_day c)

-- A charge raises the spend of its project on that day by the cents charged, whether the cell was
-- there or not, provided that the ledger's key is unique and the statements succeed.
pub add-project_day :
    (db : Db) (day : ℕ) (project agent trigger : Key) (cents : ℕ) {spent : ℕ}
    → count_where (is_cell day project (null_if agent) (null_if trigger)) db.ledger ≤ 1
    → db.outage Query.ledger_update ≡ false
    → db.outage Query.ledger_insert ≡ false
    → project_day db day project ≡ ok spent
    → project_day (add db day project agent trigger cents).0 day project ≡ ok (spent + cents)
unfolding add project_day sum_where cell
add-project_day db day project agent trigger cents {spent} one up up' h = ground (
  arith,
  sum_where-no_cell day project (null_if agent) (null_if trigger) cents db.ledger,
  sum_where-one_cell day project (null_if agent) (null_if trigger) cents db.ledger,
)
