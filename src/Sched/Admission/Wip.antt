-- ===== src/Sched/Admission/Wip.antt =====
-- The WIP limit of a running column: `wipCheck` of internal/kernel/sched/admission.go, and the counts
-- of columns that a pass carries from one run to the next.
use lexicode.Prelude.{ℕ, ◌+◌, ◌≤◌, ◌<◌, ◌≡◌, ◌≢◌, List, none, some, ok, arith}
use lexicode.Domain.Words.{Time, column_at_limit}
use lexicode.Domain.Rows.{Run, Agent, Column}
use lexicode.Store.Db.{Db}
use lexicode.Store.Queries.{tickets_in_column}
use lexicode.Sched.World.{World}
use lexicode.Sched.Admission.{Counters, clear, held, counted, wip_at, admit}

-- A column that the pass has not counted yet is compared by its tickets in the table: the run is held
-- exactly when they have reached the limit.
pub wip_at-uncounted :
    (db : Db) (current dest : Column) (limit n : ℕ) (c : Counters)
    → dest.wip_limit ≡ some limit
    → 0 < limit
    → dest.id ≢ current.id
    → counted dest.id c.column_tickets ≡ none
    → tickets_in_column db dest.id ≡ ok n
    → (limit ≤ n → (wip_at db current dest c).0 ≡ ok (held (column_at_limit dest.name n limit)))
      × (n < limit → (wip_at db current dest c).0 ≡ ok (clear (some dest)))
unfolding wip_at
wip_at-uncounted db current dest limit n c has pos away fresh read = ground arith

-- A run is admitted whose ticket is in the limited column already, so that the check has not counted
-- the column. For the rest of the pass the column then counts one ticket, whatever the table holds:
-- a limit of two or more lets the next run from another column in.
pub wip_at-after_own :
    (races : Run → List (Db → Db)) (now : Time) (day : ℕ) (w : World) (run : Run) (agent : Agent)
    (current dest : Column) (limit : ℕ) (c : Counters)
    → dest.wip_limit ≡ some limit
    → 1 < limit
    → dest.id ≢ current.id
    → counted dest.id c.column_tickets ≡ none
    → (admit races now day w run agent (some dest) c).1.global ≡ c.global + 1
    → (db : Db)
    → (wip_at db dest dest c ≡ (ok (clear (some dest)), c))
      × ((wip_at db current dest (admit races now day w run agent (some dest) c).1).0
          ≡ ok (clear (some dest)))
unfolding wip_at admit
wip_at-after_own races now day w run agent current dest limit c has pos away fresh admitted db =
    ground arith
