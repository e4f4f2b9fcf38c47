-- ===== src/Store/Db.antt =====
-- The database of internal/kernel/store: its tables, and which statements fail. SQLite itself is
-- outside: `outage` says which statement ends in an error other than "no rows".
use lexicode.Prelude.{
  Bool, true, false, List, Option, none, some, Result, ok, err, ◌==◌, if◌then◌else◌, first_where,
}
use lexicode.Domain.Words.{Key}
use lexicode.Domain.Rows.{
  Run, Event, Agent, Ticket, Column, Project, Workspace, LedgerRow, RunMessage,
}

pub data Query : Type 0 where
  run_row event_row agent_row ticket_row column_row project_row : Key → Query
  set_state set_hold_reason set_provisioned set_log_offset add_usage set_step_count : Key → Query
  acknowledge set_takeover_note : Key → Query
  next_seq create_run runs_by_states active_by_agent active_count : Query
  active_for_ticket active_on_subject latest_on_subject latest_for_review : Key → Query
  human_action columns_by_category tickets_for_column workspace_get : Query
  project_day agent_day trigger_day : Key → Query
  elicitations_for respond_elicitation write_ticket runs_for_ticket : Key → Query
  create_item append_stream supersede_firing append_output : Query
  ledger_update ledger_insert drop_queued audit_write bus_emit : Query

pub record Db : Type 0 where
  pub runs : List Run
  pub events : List Event
  pub agents : List Agent
  pub tickets : List Ticket
  pub columns : List Column
  pub projects : List Project
  pub ledger : List LedgerRow
  pub messages : List RunMessage
  pub workspace : Workspace
  pub outage : Query → Bool

-- `store.ErrNotFound`, and every other error.
pub data StoreError : Type 0 where
  not_found io : StoreError

-- `row.Scan` and `mapErr`: the row that was found, or the error.
unfoldable pub one_row {ℓ} : {A : Type ℓ} → Bool → Option A → Result StoreError A
one_row true r = err io
one_row false none = err not_found
one_row false (some a) = ok a

unfoldable pub agent_by_id : Db → Key → Result StoreError Agent
unfolding one_row first_where
agent_by_id db id =
    one_row (db.outage (Query.agent_row id)) (first_where (λ a. a.id == id) db.agents)

unfoldable pub event_by_id : Db → Key → Result StoreError Event
unfolding one_row first_where
event_by_id db id =
    one_row (db.outage (Query.event_row id)) (first_where (λ e. e.id == id) db.events)

unfoldable pub ticket_by_id : Db → Key → Result StoreError Ticket
unfolding one_row first_where
ticket_by_id db id =
    one_row (db.outage (Query.ticket_row id)) (first_where (λ t. t.id == id) db.tickets)

unfoldable pub column_by_id : Db → Key → Result StoreError Column
unfolding one_row first_where
column_by_id db id =
    one_row (db.outage (Query.column_row id)) (first_where (λ c. c.id == id) db.columns)

unfoldable pub project_by_id : Db → Key → Result StoreError Project
unfolding one_row first_where
project_by_id db id =
    one_row (db.outage (Query.project_row id)) (first_where (λ p. p.id == id) db.projects)

unfoldable pub get_workspace : Db → Result StoreError Workspace
get_workspace db = if db.outage workspace_get then err io else ok db.workspace
