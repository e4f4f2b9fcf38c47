-- ===== src/Sched/States.antt =====
-- internal/kernel/sched/states.go: the one place where runs.state changes.
-- What other transactions write between a read and the guarded UPDATE is an argument: one function on
-- the database for each round of the loop, `races`. The clock stands still for one call.
pub mod Effect
pub mod Settles
pub mod Lands
pub mod Advance
use lexicode.Prelude.{
  ℕ, Bool, true, false, List, [], ◌∷◌, Option, none, some, Result, ok, err, if◌then◌else◌, ◌&&◌,
  not,
}
use lexicode.Domain.RunState.{
  RunState, running, needs_input, awaiting_approval, same_state, is_terminal,
}
use lexicode.Domain.Words.{Key, Time, Words}
use lexicode.Domain.Rows.{Run}
use lexicode.Store.Db.{Db, StoreError}
use lexicode.Store.Runs.{RunStateUpdate, no_update, by_id, set_state}
use lexicode.Sched.World.{
  World, run_state, SchedError, store, illegal, outside_seam, audited, published,
}
use lexicode.Sched.Machine.{transition_legal}

-- One round of the loop: it returns, or it lost a race and goes round again.
pub data Round : Type 0 where
  settled : Result SchedError Run → Round
  lost : Round

-- A terminal state stamps ended_at, unless the caller did.
unfoldable pub stamp : Time → RunState → RunStateUpdate → RunStateUpdate
stamp now to u = elim u.ended_at [
  | none ↦ if is_terminal to then record u { ended_at = some now } else u
  | some t ↦ u
]

-- After the write: re-read the row, audit the edge, publish the event.
unfoldable pub land : World → Run → RunState → World × Round
unfolding audited published by_id
land w run to =
    let after : Run = elim (by_id w.db run.id) [ ok r ↦ r | err e ↦ record run { state = to } ] in
    (published after (audited (run_state run.id run.state to) w), settled (ok after))

-- The guarded UPDATE; `race` comes between the read of `run` and the write.
unfoldable pub commit :
    (Db → Db) → Time → World → Run → Key → RunState → RunStateUpdate → World × Round
unfolding stamp set_state land
commit race now w run id to u =
    let (db, wrote) = set_state (race w.db) id (run.state ∷ []) to (stamp now to u) in
    let w' = record w { db = db } in
    elim wrote [
      | err e ↦ (w', settled (err (store e)))
      | ok done ↦ if done then land w' run to else (w', lost)
    ]

unfoldable pub round : (Db → Db) → Time → World → Key → RunState → RunStateUpdate → World × Round
unfolding commit by_id
round race now w id to u = elim (by_id w.db id) [
  | err e ↦ (w, settled (err (store e)))
  | ok run ↦
      if same_state run.state to
      then (w, settled (ok run))
      else if transition_legal run.state to
      then commit race now w run id to u
      else (w, settled (err (illegal run.state to)))
]

unfoldable pub transition :
    List (Db → Db) → Time → World → Key → RunState → RunStateUpdate → World × Round
unfolding round
transition [] now w id to u = round (λ db. db) now w id to u
transition (race ∷ races) now w id to u =
    let (w', r) = round race now w id to u in
    elim r [ settled res ↦ (w', settled res) | lost ↦ transition races now w' id to u ]

unfoldable pub in_seam : RunState → Bool
in_seam needs_input = true
in_seam awaiting_approval = true
in_seam running = true
in_seam _ = false

-- `SetRunState`, the seam of the MCP server.
unfoldable pub set_run_state :
    List (Db → Db) → Time → World → Key → RunState → Words → World × Round
unfolding in_seam
set_run_state races now w id to reason =
    if in_seam to
    then transition races now w id to (record no_update { state_reason = some reason })
    else (w, settled (err (outside_seam to)))
