-- ===== src/Tests/Sample.antt =====
-- A small workspace: project 1 with agent 7, ticket 30 in the running column 40, the trigger 5, and a
-- chain of events on the subject 900: event 11, the run 1 that it started, event 12 of that run.
use lexicode.Prelude.{true, false, List, [], ◌∷◌, some, none, count_where, arith}
use lexicode.Domain.RunState.{RunState, ColumnCategory}
use lexicode.Domain.Words.{Key, blank, silence}
use lexicode.Domain.Payload.{null, codes}
use lexicode.Domain.Rows.{Run, ActorKind, Event, Agent, Ticket, Column}
use lexicode.Store.Db.{Db}
use lexicode.Store.Runs.Laws.{HasKeys}
use lexicode.Sched.World.{World}
use lexicode.Guard.{StoredConfig, Input}

abbrev pub a_run : Key → RunState → Run
a_run id state = record {
  id = id;
  seq = id;
  project_id = 1;
  agent_id = 7;
  ticket_id = some 30;
  trigger_id = some 5;
  cause_event_id = some 11;
  parent_run_id = none;
  requested_by_user_id = none;
  state = state;
  state_reason = silence;
  hold_reason = silence;
  instance_id = none;
  container_id = none;
  branch = none;
  base_sha = none;
  log_offset = 20;
  depth = 0;
  subject_key = 900;
  cost_cents = 0;
  tokens_in = 0;
  tokens_out = 0;
  tokens_cache_read = 0;
  tokens_cache_write = 0;
  step_count = 0;
  error_message = silence;
  takeover_note = blank;
  queued_at = 1000;
  started_at = none;
  ended_at = none;
  acknowledged_at = none;
}

abbrev pub event_11 : Event
event_11 = record {
  id = 11;
  project_id = some 1;
  kind = 2;
  activity_type = 3;
  actor_kind = ActorKind.external;
  actor_id = none;
  subject_kind = 4;
  subject_id = none;
  subject_number = some 9;
  subject_branch = some (codes "main");
  payload = null;
  cause_run_id = none;
  occurred_at = 900;
}

abbrev pub event_12 : Event
event_12 = record event_11 {
  id = 12;
  actor_kind = ActorKind.agent;
  actor_id = some 7;
  cause_run_id = some 1;
  occurred_at = 2000;
}

abbrev pub agent_7 : Agent
agent_7 = record {
  id = 7;
  project_id = 1;
  name = 70;
  concurrency_cap = 3;
  daily_cap_cents = some 500;
  enabled = true;
  archived_at = none;
}

abbrev pub a_ticket : Key → Ticket
a_ticket id = record {
  id = id;
  project_id = 1;
  key = id;
  column_id = 40;
  position = id;
  delegate_agent_id = none;
  archived_at = none;
}

abbrev pub column_40 : Column
column_40 = record {
  id = 40;
  project_id = 1;
  name = 41;
  category = ColumnCategory.running;
  wip_limit = some 2;
  auto_start_delegate = false;
}

abbrev pub column_50 : Column
column_50 = record {
  id = 50;
  project_id = 1;
  name = 51;
  category = ColumnCategory.ready;
  wip_limit = none;
  auto_start_delegate = false;
}

abbrev pub with_runs : List Run → Db
with_runs runs = record {
  runs = runs;
  events = event_11 ∷ event_12 ∷ [];
  agents = agent_7 ∷ [];
  tickets = a_ticket 30 ∷ a_ticket 31 ∷ a_ticket 32 ∷ [];
  columns = column_50 ∷ column_40 ∷ [];
  projects = record { id = 1; name = 100; daily_budget_cents = some 1000 } ∷ [];
  ledger =
      record { day = 4; project_id = 1; agent_id = some 7; trigger_id = some 5; cents = 30 } ∷ [];
  messages = [];
  workspace = record { max_concurrent_containers = 2; default_daily_budget_cents = 2500 };
  outage = λ q. false;
}

abbrev pub two_runs : Db
two_runs = with_runs (a_run 1 RunState.queued ∷ a_run 2 RunState.running ∷ [])

pub two_runs-HasKeys : HasKeys two_runs
unfolding count_where
two_runs-HasKeys id = ground arith

abbrev pub in_world : Db → World
in_world db = record { db = db; audit = []; feed = []; launched = [] }

abbrev pub firing : StoredConfig → Event → List Key → Input
firing config event agents = record {
  event = event;
  trigger = record { id = 5; project_id = 1; loop_config = config };
  subject_key = 900;
  payload = event.payload;
  run_agent_ids = agents;
}
