-- ===== src/Triggers/Firing.antt =====
-- internal/kernel/store/firings.go and internal/domain/trigger.go: rules, and the firings that are
-- recorded of them.
use lexicode.Prelude.{
  Bool, true, false, not, ◌&&◌, List, [], ◌∷◌, ◌++◌, Option, none, some, Result, ok, err, ◌==◌,
  holds, if◌then◌else◌, any, update_where,
}
use lexicode.Domain.Words.{Key, Time, Words}
use lexicode.Domain.Payload.{Json}
use lexicode.Domain.Rows.{Event}
use lexicode.Store.Db.{StoreError}
use lexicode.Sched.World.{World}
use lexicode.Guard.{StoredConfig, Trigger, Outcome, superseded}
use lexicode.Triggers.Conditions.{StoredTree}
use lexicode.Triggers.Match.{Stored, Filters, TriggerWhen}
use lexicode.Triggers.Template.{Warning}

-- `actionRef`: the id, the params, and of the params the two fields that `runAgentIDs` decodes, blank
-- where they are absent.
pub record ActionRef : Type 0 where
  pub action_id : Key
  pub params : Json
  pub agent_id : Key
  pub agent_name : Key

pub record Rule : Type 0 where
  pub id : Key
  pub project_id : Key
  pub enabled : Bool
  pub event : Key
  pub activity_types : Stored (List Key)
  pub filters : Stored Filters
  pub conditions : StoredTree
  pub loop_config : StoredConfig
  pub actions : Stored (List ActionRef)

abbrev pub when_of : Rule → TriggerWhen
when_of tr = record {
  id = tr.id;
  event = tr.event;
  activity_types = tr.activity_types;
  filters = tr.filters;
}

abbrev pub guard_of : Rule → Trigger
guard_of tr = record { id = tr.id; project_id = tr.project_id; loop_config = tr.loop_config }

-- `TriggerFiring`
pub record Firing : Type 0 where
  pub id : Key
  pub trigger_id : Key
  pub event_id : Key
  pub outcome : Outcome
  pub reason : Words
  pub run_id : Option Key
  pub absorbed_by : Option Key
  pub warnings : List Warning
  pub created_at : Time

-- `firingOutcome`
pub record FiringOutcome : Type 0 where
  pub outcome : Outcome
  pub reason : Words
  pub run_id : Option Key
  pub absorbed_by : Option Key

abbrev pub bare_outcome : Outcome → Words → FiringOutcome
bare_outcome o reason = record { outcome = o; reason = reason; run_id = none; absorbed_by = none }

-- The statements of the engine that may fail.
pub data Step : Type 0 where
  read_enabled read_roster emit_fired : Step
  read_exists write_firing : (trigger : Key) → Step

-- The tables of triggers and firings, in the order of creation, beside the rest of the world, the
-- firings that were published, and which statements fail.
pub record Pipeline : Type 0 where
  pub world : World
  pub rules : List Rule
  pub firings : List Firing
  pub fired : List Firing
  pub down : Step → Bool

abbrev pub is_firing : (trigger event : Key) → Firing → Bool
is_firing trigger event f = f.trigger_id == trigger && f.event_id == event

-- `Create` of the firings: ON CONFLICT (trigger_id, event_id) DO NOTHING.
unfoldable pub create_firing : Pipeline → Firing → Pipeline × Result StoreError Bool
unfolding any
create_firing m f =
    if m.down (write_firing f.trigger_id)
    then (m, err StoreError.io)
    else if any (is_firing f.trigger_id f.event_id) m.firings
    then (m, ok false)
    else (record m { firings = m.firings ++ f ∷ [] }, ok true)

unfoldable pub emit_firing : Pipeline → Firing → Pipeline
emit_firing m f = if m.down emit_fired then m else record m { fired = m.fired ++ f ∷ [] }

abbrev pub firing_of :
    (id : Key) (now : Time) → Rule → Event → FiringOutcome → List Warning → Firing
firing_of id now tr ev res warnings = record {
  id = id;
  trigger_id = tr.id;
  event_id = ev.id;
  outcome = res.outcome;
  reason = res.reason;
  run_id = res.run_id;
  absorbed_by = res.absorbed_by;
  warnings = warnings;
  created_at = now;
}

-- `writeFiring`
unfoldable pub write_outcome :
    (id : Key) (now : Time) → Rule → Event → Pipeline → FiringOutcome → List Warning → Pipeline
unfolding emit_firing
write_outcome id now tr ev m res warnings =
    let (m', done) = create_firing m (firing_of id now tr ev res warnings) in
    elim done [
      | err e ↦ m'
      | ok false ↦ m'
      | ok true ↦ emit_firing m' (firing_of id now tr ev res warnings)
    ]

abbrev pub is_superseded : Outcome → Bool
is_superseded superseded = true
is_superseded _ = false

-- The firing that started this run, not yet marked.
abbrev pub started_run : (trigger run : Key) → Firing → Bool
started_run trigger run f =
    f.trigger_id == trigger && holds f.run_id run && not (is_superseded f.outcome)

-- `Supersede`
unfoldable pub supersede : (trigger run absorbed_by : Key) → Words → List Firing → List Firing
unfolding update_where
supersede trigger run absorbed_by reason fs =
    update_where (started_run trigger run)
      (λ f. record f { outcome = superseded; reason = reason; absorbed_by = some absorbed_by }) fs
