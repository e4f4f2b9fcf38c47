-- ===== src/Guard/Layers/Passed.antt =====
-- What is known of a firing that `Evaluate` of internal/kernel/guard/layers.go lets through.
use lexicode.Prelude.{
  ℕ, ◌-◌, ◌*◌, ◌≤◌, ◌<◌, ◌≡◌, ◌≢◌, Bool, true, false, Result-cases, inl, inr, List, [], ◌∷◌, Option,
  none, some, ok, err, ◌==◌, All, any, arith,
}
use lexicode.Domain.Rows.{Project}
use lexicode.Store.Db.{project_by_id}
use lexicode.Store.Budget.{project_day}
use lexicode.Guard.Budget.{check_budget}
use lexicode.Guard.Budget.{project_over}
use lexicode.Guard.Budget.{reached}
use lexicode.Guard.Budget.{ceiling_of}
use lexicode.Domain.Words.{Key, Time}
use lexicode.Domain.RunState.{RunState}
use lexicode.Domain.Rows.{Run, ActorKind}
use lexicode.Store.Db.{Db, Query, StoreError}
use lexicode.Store.Queries.{latest_on_subject}
use lexicode.Store.Queries.Laws.{latest_on_subject-err}
use lexicode.Sched.World.{World}
use lexicode.Guard.{Config, load_config, Input, GuardPass, proceed}
use lexicode.Guard.Chain.{chain_depth, reset_of, hop_cap}
use lexicode.Guard.Chain.Laws.{Chain, chain_depth-Chain}
use lexicode.Guard.Layers.Cleared.{Cleared, evaluate_with-Cleared}
use lexicode.Guard.Layers.{is_suppressed, absorb, evaluate, check_suite}

module _ (loop : Bool) (new_id : Key) (now : Time) (day : ℕ) (w : World) (in_ : Input)
    {p : GuardPass} (passed : (evaluate loop new_id now day w in_).1 ≡ proceed p) where
  cleared : Cleared (load_config in_.trigger.loop_config) now day w in_ p
  unfolding evaluate
  cleared =
      evaluate_with-Cleared (load_config in_.trigger.loop_config) loop new_id now day w in_ passed

none-equal : (a : Key) (xs : List Key) → any (λ x. x == a) xs ≡ false → All (λ (x : Key). x ≢ a) xs
unfolding any
none-equal a [] h = tt
none-equal a (x ∷ xs) h = (ground arith, none-equal a xs (ground arith))

unsuppressed-actor :
    (cfg : Config) (in_ : Input) (actor : Key)
    → is_suppressed cfg in_ ≡ false
    → cfg.actor_suppression ≡ true
    → in_.event.kind ≢ check_suite
    → in_.event.actor_kind ≡ ActorKind.agent
    → in_.event.actor_id ≡ some actor
    → any (λ x. x == actor) in_.run_agent_ids ≡ false
unfolding is_suppressed
unsuppressed-actor cfg in_ actor h on kind agent by = ground arith

unabsorbed-probe :
    (now : Time) (db : Db) (cfg : Config) (in_ : Input)
    → absorb now db cfg in_ ≡ none
    → 0 < cfg.debounce_seconds
    → (e : StoreError) × (latest_on_subject db in_.trigger.id in_.subject_key
          (now - 1000 * cfg.debounce_seconds)
        ≡ err e)
unfolding absorb
unabsorbed-probe now db cfg in_ h on =
    elim (Result-cases
      (latest_on_subject db in_.trigger.id in_.subject_key (now - 1000 * cfg.debounce_seconds))) [
        | inr (e, k) ↦ (e, k)
        | inl (r, k) ↦ absurd (ground arith)
      ]

-- Layer 1. With actor suppression on, a firing that proceeds was not caused by an agent that its
-- rule would run, unless the event is a CI result.
pub passed-actor :
    (loop : Bool) (new_id : Key) (now : Time) (day : ℕ) (w : World) (in_ : Input) {p : GuardPass}
    (actor : Key)
    → (evaluate loop new_id now day w in_).1 ≡ proceed p
    → (load_config in_.trigger.loop_config).actor_suppression ≡ true
    → in_.event.kind ≢ check_suite
    → in_.event.actor_kind ≡ ActorKind.agent
    → in_.event.actor_id ≡ some actor
    → All (λ (id : Key). id ≢ actor) in_.run_agent_ids
passed-actor loop new_id now day w in_ actor passed on kind agent by =
    none-equal actor in_.run_agent_ids (
      unsuppressed-actor (load_config in_.trigger.loop_config) in_ actor
        (cleared loop new_id now day w in_ passed).unsuppressed on kind agent by)

-- Layer 2. With debouncing on and the probe answered, a firing that proceeds has no run of its
-- trigger on its subject inside the window, other than recorded loop stops.
pub passed-window :
    (loop : Bool) (new_id : Key) (now : Time) (day : ℕ) (w : World) (in_ : Input) {p : GuardPass}
    → (evaluate loop new_id now day w in_).1 ≡ proceed p
    → 0 < (load_config in_.trigger.loop_config).debounce_seconds
    → w.db.outage (Query.latest_on_subject in_.trigger.id) ≡ false
    → All
        (λ (r : Run).
          r.trigger_id ≡ some in_.trigger.id
          → r.subject_key ≡ in_.subject_key
          → now - 1000 * (load_config in_.trigger.loop_config).debounce_seconds ≤ r.queued_at
          → r.state ≡ RunState.loop_stopped)
        w.db.runs
passed-window loop new_id now day w in_ passed on up =
    let (e, probe) =
      unabsorbed-probe now w.db (load_config in_.trigger.loop_config) in_
        (cleared loop new_id now day w in_ passed).unabsorbed on in
    latest_on_subject-err w.db in_.trigger.id in_.subject_key _ up probe

-- Layer 4. A firing that proceeds stands on a causal chain shorter than the depth limit, for a limit
-- within the cap of the walk, if the walk could read the chain.
pub passed-Chain :
    (loop : Bool) (new_id : Key) (now : Time) (day : ℕ) (w : World) (in_ : Input) {p : GuardPass}
    (reset_at : Option Time) (d n : ℕ)
    → (evaluate loop new_id now day w in_).1 ≡ proceed p
    → 0 < (load_config in_.trigger.loop_config).depth_limit
    → reset_of w.db in_.event ≡ ok reset_at
    → chain_depth w.db in_.event in_.subject_key ≡ ok d
    → n ≤ hop_cap
    → Chain w.db reset_at in_.subject_key in_.event n
    → n < (load_config in_.trigger.loop_config).depth_limit
passed-Chain loop new_id now day w in_ reset_at d n passed on r e le ch = omega (
  arith,
  (chain_depth-Chain w.db in_.event in_.subject_key reset_at r e).2 n le ch,
  ((cleared loop new_id now day w in_ passed).shallow on d e).0,
)

check_budget-none :
    (db : Db) (day : ℕ) (in_ : Input) (cfg : Config) (project : Project) (spent : ℕ)
    → check_budget db day in_ cfg ≡ none
    → project_by_id db in_.trigger.project_id ≡ ok project
    → 0 < ceiling_of db project
    → project_day db day project.id ≡ ok spent
    → spent < ceiling_of db project
unfolding check_budget project_over reached
check_budget-none db day in_ cfg project spent h found capped read = ground arith

-- Layer 5. A firing that proceeds belongs to a project whose spend on the day, as far as it could be
-- read, is below the ceiling that is set for it.
pub passed-budget :
    (loop : Bool) (new_id : Key) (now : Time) (day : ℕ) (w : World) (in_ : Input) {p : GuardPass}
    (project : Project) (spent : ℕ)
    → (evaluate loop new_id now day w in_).1 ≡ proceed p
    → project_by_id w.db in_.trigger.project_id ≡ ok project
    → 0 < ceiling_of w.db project
    → project_day w.db day project.id ≡ ok spent
    → spent < ceiling_of w.db project
passed-budget loop new_id now day w in_ project spent passed found capped read =
    check_budget-none w.db day in_ (load_config in_.trigger.loop_config) project spent
      (cleared loop new_id now day w in_ passed).solvent found capped read
