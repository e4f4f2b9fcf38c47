-- ===== src/Sched/World.antt =====
-- What the scheduler acts on: the database, the audit log, the events that it publishes and the
-- supervisors that it has started.
use lexicode.Prelude.{List, [], ◌∷◌, ◌++◌, if◌then◌else◌}
use lexicode.Domain.RunState.{RunState}
use lexicode.Domain.Words.{Key}
use lexicode.Domain.Rows.{Run}
use lexicode.Store.Db.{Db, Query, StoreError}

pub data AuditRow : Type 0 where
  run_state : Key → (from to : RunState) → AuditRow
  run_enqueue run_loop_stopped : Key → AuditRow

pub record World : Type 0 where
  pub db : Db
  pub audit : List AuditRow
  pub feed : List Run
  pub launched : List Run

pub data SchedError : Type 0 where
  store : StoreError → SchedError
  illegal : (from to : RunState) → SchedError
  outside_seam : RunState → SchedError
  incomplete_request foreign_agent agent_disabled foreign_ticket ticket_archived : SchedError

-- `audit.Write`: a failure is logged, and the log stays as it was.
unfoldable pub audited : AuditRow → World → World
audited row w =
    if w.db.outage Query.audit_write then w else record w { audit = w.audit ++ row ∷ [] }

-- `emitRunState`: the run.state event on the bus; a failure is logged, never unwound.
unfoldable pub published : Run → World → World
published run w = if w.db.outage Query.bus_emit then w else record w { feed = w.feed ++ run ∷ [] }
