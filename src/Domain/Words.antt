-- ===== src/Domain/Words.antt =====
-- The reasons in words that the kernel writes on runs and firings. A text made by `fmt.Sprintf` is
-- kept as its format, a constructor, and the arguments; a text from elsewhere is `said`.
use native.Mathlib.Decide.{ℕ_discrete}
use lexicode.Prelude.{ℕ, List, Bool, Option}

-- Identifiers, names and subject keys are texts that the kernel only compares: numbers here. The
-- empty string is `blank`.
abbrev pub Key : Type 0
Key = ℕ

abbrev pub blank : Key
blank = 0

-- Timestamps are texts of one fixed width, ordered as the moments that they name: milliseconds.
abbrev pub Time : Type 0
Time = ℕ

pub data Words : Type 0 where
  silence : Words
  said : Key → Words
  agent_at_limit : (name : Key) (cap : ℕ) → Words
  column_at_limit : (name : Key) (count limit : ℕ) → Words
  workspace_at_limit : (cap : ℕ) → Words
  agent_missing agent_gone budget_exceeded : Words
  project_spent agent_spent : (name : Key) (spent budget : ℕ) → Words
  rule_spent : (spent budget : ℕ) → Words
  skip_token actor_suppressed : Words
  debounced_review : (review : List ℕ) (seq : ℕ) → Words
  debounced_within : (seconds seq : ℕ) (subject : Key) → Words
  loop_depth : (depth limit : ℕ) (subject : Key) → Words
  superseded_by : (seq : ℕ) → Words
  takeover restarted runtime_error agent_failed : Words
  column_auto_start archive_of_ticket : Words
  container_gone : (branch : Option Key) → Words
  wall_clock : (seconds : ℕ) → Words
  process_exited : (code : ℕ) → Words
  conditions_not_met no_actions actions_unreadable project_unreadable nothing_to_do : Words
  action_missing action_unknown : (action : Key) → Words
  action_failed : (action message : Key) → Words
  action_ended : (action : Key) (approval : Bool) → Words
  notes_joined : List Key → Words
  provisioning_failed launch_failed canceled_line nothing_held : Words
  failed_after timed_out_after : (steps : ℕ) → Words
  pushed_to : (branch : Key) → Words
  not_pushed : (branch failure : Key) → Words
  push_failed not_preserved : (failure : Key) → Words
  joined : (opening message clause : Words) → Words

pub Words-discrete : Discrete Words
Words-discrete = hlevel ℕ_discrete
