-- ===== src/Triggers/Actions.antt =====
-- internal/service/triggers/engine.go: `runActions`, the walk over the actions of a rule.
-- Arguments: what the registry knows of actions.
pub mod Walk
use lexicode.Prelude.{
  ℕ, Bool, true, false, ◌&&◌, ◌||◌, List, [], ◌∷◌, ◌++◌, Option, none, some, Result, ok, err, ◌==◌,
  if◌then◌else◌,
}
use lexicode.Domain.Words.{
  Key, blank, Words, no_actions, actions_unreadable, project_unreadable, nothing_to_do,
  action_missing, action_unknown, action_failed, action_ended, notes_joined,
}
use lexicode.Domain.Payload.{Json}
use lexicode.Domain.Rows.{Event}
use lexicode.Store.Db.{project_by_id}
use lexicode.Sched.World.{World}
use lexicode.Guard.{GuardPass, Outcome, succeeded, no_action, awaiting_approval, errored}
use lexicode.Triggers.Match.{value}
use lexicode.Triggers.Template.{Warning}
use lexicode.Triggers.Firing.{ActionRef, Rule, FiringOutcome, bare_outcome}

-- `ActionResult`; a blank note is none.
pub record ActionResult : Type 0 where
  pub outcome : Outcome
  pub run_id : Option Key
  pub note : Key

-- What an action does to the world, the warnings of its templates, and its result or error message.
abbrev pub Execute : Type 0
Execute =
    Rule
    → Event
    → Json
    → GuardPass
    → ActionRef
    → World
    → World × List Warning × Result Key ActionResult

-- What the loop of `runActions` carries.
pub record Walked : Type 0 where
  pub world : World
  pub warnings : List Warning
  pub notes : List Key
  pub run_id : Option Key
  pub done : Bool

abbrev pub noted : Key → List Key → List Key
noted note notes = if note == blank then notes else notes ++ note ∷ []

abbrev pub later_run : Option Key → Option Key → Option Key
later_run none old = old
later_run (some id) old = some id

abbrev pub reason_or : List Key → Words → Words
reason_or [] w = w
reason_or (n ∷ ns) w = notes_joined (n ∷ ns)

-- The loop ended with an outcome, or it goes on.
pub data Turn : Type 0 where
  ends : World → List Warning → FiringOutcome → Turn
  goes : Walked → Turn

abbrev pub ends_with : Walked → Outcome → Words → Turn
ends_with s o reason =
    ends s.world s.warnings
      (record { outcome = o; reason = reason; run_id = s.run_id; absorbed_by = none })

module _ (action : Key → Option Execute) (tr : Rule) (ev : Event) (payload : Json)
    (pass : GuardPass) where
  -- What follows from the result of an action.
  unfoldable pub after_action : ActionRef → Walked → ActionResult → Turn
  after_action ref s res =
      let s' : Walked = record s {
        notes = noted res.note s.notes;
        run_id = later_run res.run_id s.run_id;
      } in
      elim res.outcome [
        | succeeded ↦ goes (record s' { done = true })
        | no_action ↦ goes s'
        | awaiting_approval ↦
            ends_with s' awaiting_approval (reason_or s'.notes (action_ended ref.action_id true))
        | errored ↦ ends_with s' errored (reason_or s'.notes (action_ended ref.action_id false))
        | _ ↦ ends_with s' errored (action_unknown ref.action_id)
      ]

  -- One round of the loop.
  unfoldable pub run_action : ActionRef → Walked → Turn
  unfolding after_action
  run_action ref s = elim (action ref.action_id) [
    | none ↦ ends_with s errored (action_missing ref.action_id)
    | some execute ↦
        (let (w, warnings, res) = execute tr ev payload pass ref s.world in
          let s' : Walked = record s { world = w; warnings = s.warnings ++ warnings } in
          elim res [
            | err message ↦ ends_with s' errored (action_failed ref.action_id message)
            | ok r ↦ after_action ref s' r
          ])
  ]

  unfoldable pub run_refs : List ActionRef → Walked → Turn
  run_refs [] s = goes s
  run_refs (ref ∷ refs) s = elim (run_action ref s) [
    | ends w ws o ↦ ends w ws o
    | goes s' ↦ run_refs refs s'
  ]

  -- The outcome of a walk that came to its end.
  unfoldable pub summed : Turn → World × FiringOutcome × List Warning
  summed (ends w ws o) = (w, o, ws)
  summed (goes s) =
      let o = if s.done then succeeded else no_action in
      let reason = if s.done then notes_joined s.notes else reason_or s.notes nothing_to_do in
      (
        s.world,
        record { outcome = o; reason = reason; run_id = s.run_id; absorbed_by = none },
        s.warnings,
      )

  -- `runActions`
  unfoldable pub run_actions : World → World × FiringOutcome × List Warning
  unfolding run_refs summed
  run_actions w = elim tr.actions [
    | value [] ↦ (w, bare_outcome no_action no_actions, [])
    | value (ref ∷ refs) ↦ elim (project_by_id w.db tr.project_id) [
      | err e ↦ (w, bare_outcome errored project_unreadable, [])
      | ok project ↦ summed (
          run_refs (ref ∷ refs)
            (record { world = w; warnings = []; notes = []; run_id = none; done = false }))
    ]
    | _ ↦ (w, bare_outcome errored actions_unreadable, [])
  ]
