-- ===== src/Tests/Engine.antt =====
-- The theorems on the trigger engine at two rules, and one event that comes in twice.
use lexicode.Prelude.{
  ◌≡◌, refl, Bool, true, false, [], ◌∷◌, Option, none, some, ok, err, All, count_where, ◌==◌,
  if◌then◌else◌, arith,
}
use lexicode.Domain.Words.{Key}
use lexicode.Domain.Payload.{Text, Json, null, same_text}
use lexicode.Domain.Rows.{Event}
use lexicode.Triggers.Conditions.{no_tree}
use lexicode.Guard.{missing, succeeded, GuardPass}
use lexicode.Triggers.Match.{nothing, value, match_stage}
use lexicode.Triggers.Firing.{Rule, ActionRef, Pipeline, is_firing, when_of}
use lexicode.Triggers.Actions.{Execute, Walked, run_refs}
use lexicode.Triggers.Actions.Walk.{Walks, run_refs-Walks}
use lexicode.Triggers.Engine.{enabled_rules, process}
use lexicode.Triggers.Engine.Written.{FiredOnce}
use lexicode.Triggers.Engine.Once.{process-FiredOnce, process-one, process-again}
use lexicode.Tests.Sample.{event_11, two_runs, in_world}

abbrev literally : Text → Text → Option Bool
literally pattern s = some (same_text pattern s)

-- Action 5 succeeds, action 6 fails with the message 66.
abbrev registry : Key → Option Execute
registry k =
    if k == 5
    then some (λ tr ev payload pass ref w.
      (w, [], ok (record { outcome = succeeded; run_id = none; note = 55 })))
    else if k == 6
    then some (λ tr ev payload pass ref w. (w, [], err 66))
    else none

abbrev calls : Key → ActionRef
calls k = record { action_id = k; params = null; agent_id = 0; agent_name = 0 }

abbrev rule : Key → Key → Rule
rule id event = record {
  id = id;
  project_id = 1;
  enabled = true;
  event = event;
  activity_types = nothing;
  filters = nothing;
  conditions = no_tree;
  loop_config = missing;
  actions = value (calls 5 ∷ calls 6 ∷ []);
}

-- Rule 5 is for the kind of the event, rule 6 is not.
abbrev pipeline : Pipeline
pipeline = record {
  world = in_world two_runs;
  rules = rule 5 2 ∷ rule 6 9 ∷ [];
  firings = [];
  fired = [];
  down = λ s. false;
}

none_yet : FiredOnce pipeline
unfolding count_where
none_yet trigger event = omega arith

abbrev subject : Event → Json → Key
subject ev payload = 900

abbrev own_id : Rule → Key
own_id tr = tr.id

abbrev fired : Pipeline
fired = process literally registry subject own_id own_id 3000 4 1 event_11 pipeline

process-FiredOnce_example :
    FiredOnce (process literally registry subject own_id own_id 3000 4 1 event_11 pipeline)
process-FiredOnce_example =
    process-FiredOnce literally registry subject own_id own_id 3000 4 1 event_11 pipeline none_yet

process-one_example :
    All
      (λ (tr : Rule).
        match_stage literally (when_of tr) event_11 event_11.payload ≡ true
        → count_where
            (is_firing tr.id event_11.id)
            (process literally registry subject own_id own_id 3000 4 1 event_11 pipeline).firings
          ≡ 1)
      (enabled_rules 1 pipeline)
process-one_example =
    process-one literally registry subject own_id own_id 3000 4 1 event_11 pipeline none_yet
      (λ s. refl)

process-again_example :
    process literally registry subject own_id own_id 3000 4 1 event_11
      (process literally registry subject own_id own_id 3000 4 1 event_11 pipeline)
    ≡ process literally registry subject own_id own_id 3000 4 1 event_11 pipeline
process-again_example =
    process-again literally registry subject own_id own_id 3000 4 1 event_11 pipeline (λ s. refl)

abbrev pass : GuardPass
pass = record { subject_key = 900; depth = 0; superseded_run_id = none }

abbrev start : Walked
start = record { world = in_world two_runs; warnings = []; notes = []; run_id = none; done = false }

run_refs-Walks_example :
    Walks registry
      (rule 5 2)
      event_11
      null
      pass
      (calls 5 ∷ calls 6 ∷ calls 5 ∷ [])
      start
      (run_refs registry (rule 5 2) event_11 null pass (calls 5 ∷ calls 6 ∷ calls 5 ∷ []) start)
run_refs-Walks_example =
    run_refs-Walks registry (rule 5 2) event_11 null pass (calls 5 ∷ calls 6 ∷ calls 5 ∷ []) start
