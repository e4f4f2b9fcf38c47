-- ===== src/Guard.antt =====
-- internal/kernel/guard: loop protection, stage 3 of the trigger pipeline. The types of guard.go, and
-- the configuration of layers.go.
pub mod SkipToken
pub mod Chain
pub mod Budget
pub mod Layers
use lexicode.Prelude.{ℕ, Bool, true, List, Option, none, some}
use lexicode.Domain.Words.{Key, Words}
use lexicode.Domain.Payload.{Json}
use lexicode.Domain.Rows.{Event}

-- `config` of layers.go.
pub record Config : Type 0 where
  pub actor_suppression : Bool
  pub debounce_seconds : ℕ
  pub cancel_in_progress : Bool
  pub depth_limit : ℕ
  pub daily_budget_cents : Option ℕ

-- `domain.DefaultLoopConfig`
abbrev pub default_config : Config
default_config = record {
  actor_suppression = true;
  debounce_seconds = 90;
  cancel_in_progress = true;
  depth_limit = 3;
  daily_budget_cents = none;
}

-- A stored loop_config, as encoding/json reads it: no text, a text that does not decode, or the
-- fields that it sets. A negative number switches its layer off as 0 does.
pub data StoredConfig : Type 0 where
  missing malformed : StoredConfig
  fields :
      (actor_suppression : Option Bool)
      → (debounce_seconds : Option ℕ) → (cancel_in_progress : Option Bool)
      → (depth_limit : Option ℕ) → (daily_budget_cents : Option (Option ℕ)) → StoredConfig

abbrev pub or_default {ℓ} : {A : Type ℓ} → Option A → A → A
or_default none d = d
or_default (some a) d = a

unfoldable pub load_config : StoredConfig → Config
load_config missing = default_config
load_config malformed = default_config
load_config (fields actor debounce cancel depth budget) = record {
  actor_suppression = or_default actor default_config.actor_suppression;
  debounce_seconds = or_default debounce default_config.debounce_seconds;
  cancel_in_progress = or_default cancel default_config.cancel_in_progress;
  depth_limit = or_default depth default_config.depth_limit;
  daily_budget_cents = or_default budget default_config.daily_budget_cents;
}

-- Of the trigger, what the guard reads.
pub record Trigger : Type 0 where
  pub id : Key
  pub project_id : Key
  pub loop_config : StoredConfig

pub record Input : Type 0 where
  pub event : Event
  pub trigger : Trigger
  pub subject_key : Key
  pub payload : Json
  pub run_agent_ids : List Key

pub record GuardPass : Type 0 where
  pub subject_key : Key
  pub depth : ℕ
  pub superseded_run_id : Option Key

-- `domain.FiringOutcome`; `unknown` stands for any other text.
pub data Outcome : Type 0 where
  succeeded no_action awaiting_approval errored : Outcome
  debounced superseded loop_stopped budget_exceeded unknown : Outcome

-- `Verdict`: what goes with Proceed true, and what goes with Proceed false.
pub data Verdict : Type 0 where
  proceed : GuardPass → Verdict
  terminate : Outcome → Words → (absorbed_by run : Option Key) → Verdict

-- `stop` of layers.go.
abbrev pub stop : Outcome → Words → Verdict
stop o reason = terminate o reason none none
