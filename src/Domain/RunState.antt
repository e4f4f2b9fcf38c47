-- ===== src/Domain/RunState.antt =====
-- internal/domain/enums.go: the states of a run, and the categories of a column.
use mathlib.Core.Path.{◌≡◌}
use lexicode.Prelude.{ℕ, Bool, true, false, ◌↔◌, ◌==◌, arith}

pub data RunState : Type 0 where
  queued provisioning running needs_input awaiting_approval : RunState
  completed failed timed_out canceled loop_stopped : RunState

-- The ten values are told apart by a number where the source compares strings.
abbrev pub index : RunState → ℕ
index queued = 0
index provisioning = 1
index running = 2
index needs_input = 3
index awaiting_approval = 4
index completed = 5
index failed = 6
index timed_out = 7
index canceled = 8
index loop_stopped = 9

abbrev pub same_state : RunState → RunState → Bool
same_state s t = index s == index t

pub same_state_iff : (s t : RunState) → (same_state s t ≡ true) ↔ (s ≡ t)
same_state_iff s t = ground arith

abbrev pub is_terminal : RunState → Bool
is_terminal completed = true
is_terminal failed = true
is_terminal timed_out = true
is_terminal canceled = true
is_terminal loop_stopped = true
is_terminal _ = false

-- `activeRunStates` of internal/kernel/store/runstate.go: the states that hold a container slot.
abbrev pub holds_slot : RunState → Bool
holds_slot provisioning = true
holds_slot running = true
holds_slot needs_input = true
holds_slot awaiting_approval = true
holds_slot _ = false

pub data ColumnCategory : Type 0 where
  backlog ready running review done canceled : ColumnCategory

abbrev pub is_running : ColumnCategory → Bool
is_running ColumnCategory.running = true
is_running _ = false
