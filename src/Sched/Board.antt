-- ===== src/Sched/Board.antt =====
-- The abstract view of the run engine: the states of the runs, in the order of their creation. A run is
-- born queued, or ended by the loop guard, and then moves along the edges of the state machine.
pub mod Rows
pub mod Writes
pub mod Admission
pub mod Stops
pub mod Births
pub mod Endings
pub mod Laws
use lexicode.Prelude.{◌≡◌, refl, List, [], ◌∷◌, ◌++◌, map}
use lexicode.Domain.RunState.{RunState, queued, loop_stopped}
use lexicode.Domain.Words.{Key}
use lexicode.Domain.Rows.{Run}
use lexicode.Sched.Machine.{◌⟶◌}

abbrev pub Board : Type 0
Board = List (Key × RunState)

abbrev pub entry : Run → Key × RunState
entry r = (r.id, r.state)

abbrev pub board : List Run → Board
board rs = map entry rs

pub data IsBirth : RunState → Type 0 where
  asked : IsBirth queued
  refused : IsBirth loop_stopped

infix 40 ◌⇒◌ ◌⇒*◌
-- One step: an edge of one run, or a new run at the end.
pub data ◌⇒◌ : Board → Board → Type 0 where
  move : (id : Key) (b : Board) {s t : RunState} → s ⟶ t → ((id, s) ∷ b) ⇒ ((id, t) ∷ b)
  born : (id : Key) {s : RunState} → IsBirth s → [] ⇒ ((id, s) ∷ [])
  later : (e : Key × RunState) {b c : Board} → b ⇒ c → (e ∷ b) ⇒ (e ∷ c)

pub data ◌⇒*◌ (b : Board) : Board → Type 0 where
  stays : b ⇒* b
  steps : {c d : Board} → b ⇒* c → c ⇒ d → b ⇒* d
