-- ===== src/Domain/Rows.antt =====
-- internal/domain: the rows of the tables, with the columns that the kernel's decisions read or
-- write. A nullable column is an `Option`.
use lexicode.Prelude.{ℕ, Bool, true, false, Option}
use lexicode.Domain.RunState.{RunState, ColumnCategory}
use lexicode.Domain.Words.{Key, Time, Words}
use lexicode.Domain.Payload.{Text, Json}

-- The snapshots taken at launch (autonomy, directive, model, effort, prompt, runtime, sandbox) and
-- current_step are left out: no decision reads them.
pub record Run : Type 0 where
  pub id : Key
  pub seq : ℕ
  pub project_id : Key
  pub agent_id : Key
  pub ticket_id : Option Key
  pub trigger_id : Option Key
  pub cause_event_id : Option Key
  pub parent_run_id : Option Key
  pub requested_by_user_id : Option Key
  pub state : RunState
  pub state_reason : Words
  pub hold_reason : Words
  pub instance_id : Option Key
  pub container_id : Option Key
  pub branch : Option Key
  pub base_sha : Option Key
  pub log_offset : ℕ
  pub depth : ℕ
  pub subject_key : Key
  pub cost_cents : ℕ
  pub tokens_in : ℕ
  pub tokens_out : ℕ
  pub tokens_cache_read : ℕ
  pub tokens_cache_write : ℕ
  pub step_count : ℕ
  pub error_message : Words
  pub takeover_note : Key
  pub queued_at : Time
  pub started_at : Option Time
  pub ended_at : Option Time
  pub acknowledged_at : Option Time

pub record UsageDelta : Type 0 where
  pub tokens_in : ℕ
  pub tokens_out : ℕ
  pub tokens_cache_read : ℕ
  pub tokens_cache_write : ℕ
  pub cost_cents : ℕ

pub data ActorKind : Type 0 where
  human agent trigger system external : ActorKind

abbrev pub is_human : ActorKind → Bool
is_human ActorKind.human = true
is_human _ = false

abbrev pub is_agent : ActorKind → Bool
is_agent ActorKind.agent = true
is_agent _ = false

pub record Event : Type 0 where
  pub id : Key
  pub project_id : Option Key
  pub kind : Key
  pub activity_type : Key
  pub actor_kind : ActorKind
  pub actor_id : Option Key
  pub subject_kind : Key
  pub subject_id : Option Key
  pub subject_number : Option ℕ
  pub subject_branch : Option Text
  pub payload : Json
  pub cause_run_id : Option Key
  pub occurred_at : Time

pub record Agent : Type 0 where
  pub id : Key
  pub project_id : Key
  pub name : Key
  pub concurrency_cap : ℕ
  pub daily_cap_cents : Option ℕ
  pub enabled : Bool
  pub archived_at : Option Time

pub record Ticket : Type 0 where
  pub id : Key
  pub project_id : Key
  pub key : Key
  pub column_id : Key
  pub position : ℕ
  pub delegate_agent_id : Option Key
  pub archived_at : Option Time

pub record Column : Type 0 where
  pub id : Key
  pub project_id : Key
  pub name : Key
  pub category : ColumnCategory
  pub wip_limit : Option ℕ
  pub auto_start_delegate : Bool

pub record Project : Type 0 where
  pub id : Key
  pub name : Key
  pub daily_budget_cents : Option ℕ

pub record Workspace : Type 0 where
  pub max_concurrent_containers : ℕ
  pub default_daily_budget_cents : ℕ

-- One cell of budget_ledger, keyed by day, project, agent and trigger.
pub record LedgerRow : Type 0 where
  pub day : ℕ
  pub project_id : Key
  pub agent_id : Option Key
  pub trigger_id : Option Key
  pub cents : ℕ

-- A steering message of a run: `pending` says that its state is queued.
pub record RunMessage : Type 0 where
  pub id : Key
  pub run_id : Key
  pub pending : Bool

pub data ElicitationState : Type 0 where
  pending answered denied expired canceled : ElicitationState

abbrev pub is_pending : ElicitationState → Bool
is_pending pending = true
is_pending _ = false

-- A question of a run to a human, with the columns that the scheduler reads or writes.
pub record Elicitation : Type 0 where
  pub id : Key
  pub run_id : Key
  pub state : ElicitationState
  pub responded_at : Option Time
  pub created_at : Time

-- One entry of the context that a run was given.
pub record RunContextItem : Type 0 where
  pub id : Key
  pub run_id : Key
  pub position : ℕ

-- An entry of a ticket's stream: the card of a run.
pub record StreamEntry : Type 0 where
  pub id : Key
  pub ticket_id : Key
  pub actor_id : Key
  pub run_seq : ℕ
  pub reason : Words
  pub run_id : Key
  pub created_at : Time

-- An output of a run, of the kind partial_work.
pub record RunOutput : Type 0 where
  pub run_id : Key
  pub ref : Key
  pub created_at : Time
