-- ===== src/Guard/Layers.antt =====
-- internal/kernel/guard/layers.go: `Evaluate`, the escape hatch and the five layers in order. The
-- clock, the day and the id of a run that may be made are arguments; `loop` says that a scheduler is
-- wired.
pub mod Cleared
pub mod Passed
pub mod Stopped
use lexicode.Prelude.{
  ℕ, ◌+◌, ◌-◌, ◌*◌, Bool, true, false, not, ◌&&◌, List, [], ◌∷◌, Option, none, some, Result, ok,
  err, ◌==◌, ltb, leb, if◌then◌else◌, any,
}
use lexicode.Domain.Words.{
  Key, blank, Time, Words, skip_token, actor_suppressed, debounced_review, debounced_within,
  loop_depth,
}
use lexicode.Domain.Payload.{Text}
use lexicode.Domain.Rows.{Run, Event, is_agent}
use lexicode.Store.Db.{Db, StoreError}
use lexicode.Store.Queries.{latest_on_subject, active_on_subject, latest_for_review}
use lexicode.Sched.World.{World}
use lexicode.Sched.Create.{LoopStoppedRun, enqueue_loop_stopped}
use lexicode.Guard.{
  Config, load_config, Input, GuardPass, Outcome, no_action, debounced, loop_stopped,
  budget_exceeded, Verdict, proceed, terminate, stop,
}
use lexicode.Guard.SkipToken.{has_skip_token, review_id_of}
use lexicode.Guard.Chain.{chain_depth}
use lexicode.Guard.Budget.{check_budget}

-- The event kind "check_suite".
abbrev pub check_suite : Key
check_suite = 1

unfoldable pub exempt_from_actor_suppression : Event → Bool
exempt_from_actor_suppression ev = ev.kind == check_suite

-- Layer 1: the actor of the event is an agent that the rule would run.
unfoldable pub is_suppressed : Config → Input → Bool
unfolding exempt_from_actor_suppression any
is_suppressed cfg in_ =
    cfg.actor_suppression
    && not (exempt_from_actor_suppression in_.event)
    && is_agent in_.event.actor_kind
    && elim in_.event.actor_id [
      | none ↦ false
      | some actor ↦ any (λ id. id == actor) in_.run_agent_ids
    ]

-- The probe of `coalesceReview`, where the event names a review, a project and a number.
unfoldable pub probe_review :
    Db → Input → (review : Text) (project : Key) (number : ℕ) → Option Verdict
probe_review db in_ review project number =
    elim (latest_for_review db in_.trigger.id project in_.event.subject_kind number review) [
      | err e ↦ none
      | ok run ↦ some (terminate debounced (debounced_review review run.seq) (some run.id) none)
    ]

-- Layer 2a, `coalesceReview`.
unfoldable pub coalesce_review : Db → Input → Option Verdict
unfolding probe_review
coalesce_review db in_ = elim (review_id_of in_.payload) [
  | none ↦ none
  | some review ↦ elim in_.event.project_id [
    | none ↦ none
    | some project ↦ elim in_.event.subject_number [
      | none ↦ none
      | some number ↦ probe_review db in_ review project number
    ]
  ]
]

-- Layer 2: a run for this trigger and subject was queued inside the window.
unfoldable pub debounce : Time → Db → Config → Input → Option Verdict
debounce now db cfg in_ =
    elim (latest_on_subject db in_.trigger.id in_.subject_key (now - 1000 * cfg.debounce_seconds)) [
      | err e ↦ none
      | ok run ↦ some (
          terminate debounced (debounced_within cfg.debounce_seconds run.seq in_.subject_key)
            (some run.id) none)
    ]

-- Layers 2a and 2, which share a switch.
unfoldable pub absorb : Time → Db → Config → Input → Option Verdict
unfolding coalesce_review debounce
absorb now db cfg in_ =
    if cfg.debounce_seconds == 0
    then none
    else elim (coalesce_review db in_) [ some v ↦ some v | none ↦ debounce now db cfg in_ ]

-- Layer 3: the run to be superseded.
unfoldable pub superseded : Db → Config → Input → Option Key
superseded db cfg in_ =
    if cfg.cancel_in_progress
    then elim (active_on_subject db in_.trigger.id in_.subject_key) [
      | ok run ↦ some run.id
      | err e ↦ none
    ]
    else none

-- The run that `stopLoop` records, for the first agent of the rule.
unfoldable pub record_stop :
    (new_id : Key) (now : Time) → World → Input → (agent : Key) (depth limit : ℕ) → World × Verdict
record_stop new_id now w in_ agent depth limit =
    let reason = loop_depth depth limit in_.subject_key in
    let (w', res) = enqueue_loop_stopped new_id now w (record {
      project_id = in_.trigger.project_id;
      agent_id = agent;
      trigger_id = in_.trigger.id;
      cause_event_id = in_.event.id;
      subject_key = in_.subject_key;
      depth = depth;
      reason = reason;
    }) in
    elim res [
      | err e ↦ (w', stop loop_stopped reason)
      | ok run ↦ (w', terminate loop_stopped reason none (some run.id))
    ]

-- `stopLoop`
unfoldable pub stop_loop :
    (loop : Bool) (new_id : Key) (now : Time) → World → Input → (depth limit : ℕ) → World × Verdict
stop_loop loop new_id now w in_ depth limit =
    if loop
    then elim in_.run_agent_ids [
      | [] ↦ (w, stop loop_stopped (loop_depth depth limit in_.subject_key))
      | agent ∷ agents ↦ record_stop new_id now w in_ agent depth limit
    ]
    else (w, stop loop_stopped (loop_depth depth limit in_.subject_key))

-- Layer 5 and the verdict, with the depth that layer 4 found.
unfoldable pub budget_layer : (day : ℕ) → World → Config → Input → (depth : ℕ) → World × Verdict
budget_layer day w cfg in_ depth = elim (check_budget w.db day in_ cfg) [
  | some reason ↦ (w, stop budget_exceeded reason)
  | none ↦ (
    w,
    proceed (record {
      subject_key = in_.subject_key;
      depth = depth;
      superseded_run_id = superseded w.db cfg in_;
    }),
  )
]

-- Layer 4.
unfoldable pub depth_layer :
    (loop : Bool) (new_id : Key) (now : Time) (day : ℕ) → World → Config → Input → World × Verdict
depth_layer loop new_id now day w cfg in_ =
    if cfg.depth_limit == 0
    then budget_layer day w cfg in_ 0
    else elim (chain_depth w.db in_.event in_.subject_key) [
      | err e ↦ budget_layer day w cfg in_ 0
      | ok depth ↦
          if leb cfg.depth_limit depth
          then stop_loop loop new_id now w in_ depth cfg.depth_limit
          else budget_layer day w cfg in_ depth
    ]

unfoldable pub evaluate_with :
    Config → (loop : Bool) (new_id : Key) (now : Time) (day : ℕ) → World → Input → World × Verdict
evaluate_with cfg loop new_id now day w in_ =
    if has_skip_token in_.payload
    then (w, stop no_action skip_token)
    else if is_suppressed cfg in_
    then (w, stop no_action actor_suppressed)
    else elim (absorb now w.db cfg in_) [
      | some v ↦ (w, v)
      | none ↦ depth_layer loop new_id now day w cfg in_
    ]

-- `Evaluate`
unfoldable pub evaluate :
    (loop : Bool) (new_id : Key) (now : Time) (day : ℕ) → World → Input → World × Verdict
unfolding evaluate_with load_config
evaluate loop new_id now day w in_ =
    evaluate_with (load_config in_.trigger.loop_config) loop new_id now day w in_
