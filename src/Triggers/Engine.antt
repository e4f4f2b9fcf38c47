-- ===== src/Triggers/Engine.antt =====
-- internal/service/triggers/engine.go: the four stages of a firing, and one event against the triggers
-- of its project. Workers take the events of a project one by one, so an event is one call of `process`.
-- Arguments: what the registry knows of actions, the subject that the catalogs give an event, ids, and
-- `path.Match`.
pub mod Written
pub mod Once
use lexicode.Prelude.{
  ℕ, Bool, true, false, ◌&&◌, ◌||◌, List, [], ◌∷◌, ◌++◌, Option, none, some, ◌==◌, if◌then◌else◌,
  any, select, first_where,
}
use lexicode.Domain.Words.{Key, blank, Time, Words, conditions_not_met}
use lexicode.Domain.Payload.{Text, Json}
use lexicode.Domain.Rows.{Event, Agent}
use lexicode.Sched.World.{World}
use lexicode.Guard.{Verdict, proceed, terminate, no_action}
use lexicode.Guard.Layers.{evaluate}
use lexicode.Triggers.Conditions.{eval_conditions}
use lexicode.Triggers.Match.{value, match_stage}
use lexicode.Triggers.Firing.{
  Rule, Firing, FiringOutcome, Step, emit_fired, read_enabled, read_roster, read_exists,
  write_firing, Pipeline, is_firing, create_firing, emit_firing, write_outcome, firing_of, when_of,
  guard_of, ActionRef, bare_outcome,
}
use lexicode.Triggers.Actions.{Execute, run_actions}

-- `Enabled`: the triggers that an event of the project is put to.
unfoldable pub enabled_rules : (project : Key) → Pipeline → List Rule
unfolding select
enabled_rules project m = select (λ tr. tr.project_id == project && tr.enabled) m.rules

-- The actions that act as an agent.
abbrev pub run_agent : Key
run_agent = 1

abbrev pub post_comment : Key
post_comment = 2

-- The agent of a project with this name, the first of the roster.
unfoldable pub named_agent : World → (project name : Key) → List Key
unfolding first_where
named_agent w project name =
    elim (first_where (λ (a : Agent). a.project_id == project && a.name == name) w.db.agents) [
      | none ↦ []
      | some a ↦ a.id ∷ []
    ]

unfoldable pub ids_of : Pipeline → (project : Key) → ActionRef → List Key
unfolding named_agent
ids_of m project ref =
    if ref.action_id == run_agent || ref.action_id == post_comment
    then (if ref.agent_id == blank
        then (if ref.agent_name == blank || m.down read_roster
            then []
            else named_agent m.world project ref.agent_name)
        else ref.agent_id ∷ [])
    else []

unfoldable pub all_ids : Pipeline → (project : Key) → List ActionRef → List Key
unfolding ids_of
all_ids m project [] = []
all_ids m project (ref ∷ refs) = ids_of m project ref ++ all_ids m project refs

-- `runAgentIDs`
unfoldable pub run_agent_ids : Pipeline → Rule → List Key
unfolding all_ids
run_agent_ids m tr = elim tr.actions [ value refs ↦ all_ids m tr.project_id refs | _ ↦ [] ]

module _ (path_match : Text → Text → Option Bool) (action : Key → Option Execute)
    (subject : Event → Json → Key) (firing_id run_id : Rule → Key) (now : Time) (day : ℕ) where
  -- What follows from the verdict of the guard: its outcome, or the actions and theirs.
  unfoldable pub decided : Rule → Event → Pipeline → World → Verdict → Pipeline
  decided tr ev m w (terminate o reason absorbed run) =
      write_outcome (firing_id tr) now tr ev (record m { world = w })
        (record { outcome = o; reason = reason; run_id = run; absorbed_by = absorbed }) []
  decided tr ev m w (proceed pass) =
      let (w', res, warnings) = run_actions action tr ev ev.payload pass w in
      write_outcome (firing_id tr) now tr ev (record m { world = w' }) res warnings

  -- Stages 3 and 4, for a rule that matched, whose conditions hold, and that has no firing yet.
  unfoldable pub guarded : Rule → Event → Pipeline → Pipeline
  guarded tr ev m =
      let (w, verdict) = evaluate true (run_id tr) now day m.world (record {
        event = ev;
        trigger = guard_of tr;
        subject_key = subject ev ev.payload;
        payload = ev.payload;
        run_agent_ids = run_agent_ids m tr;
      }) in
      decided tr ev m w verdict

  -- `fire`
  unfoldable pub fire : Rule → Event → Pipeline → Pipeline
  unfolding any
  fire tr ev m =
      if match_stage path_match (when_of tr) ev ev.payload
      then (if m.down (read_exists tr.id) || any (is_firing tr.id ev.id) m.firings
          then m
          else if eval_conditions path_match tr.conditions ev.payload
          then guarded tr ev m
          else write_outcome (firing_id tr) now tr ev m (bare_outcome no_action conditions_not_met)
              [])
      else m

  -- The loop of `process`.
  unfoldable pub fire_each : List Rule → Event → Pipeline → Pipeline
  fire_each [] ev m = m
  fire_each (tr ∷ trs) ev m = fire_each trs ev (fire tr ev m)

  -- `process`, with the project of the event.
  unfoldable pub process : (project : Key) → Event → Pipeline → Pipeline
  unfolding enabled_rules
  process project ev m = if m.down read_enabled then m else fire_each (enabled_rules project m) ev m

  -- The event kind "trigger", of the engine's own firings.
  unfoldable pub handle : (trigger_kind : Key) → Event → Pipeline → Pipeline
  handle trigger_kind ev m = elim ev.project_id [
    | none ↦ m
    | some project ↦ if project == blank || ev.kind == trigger_kind then m else process project ev m
  ]
