-- ===== src/Guard/Layers/Cleared.antt =====
-- The answers of the layers of internal/kernel/guard/layers.go behind a verdict to proceed.
use lexicode.Prelude.{
  ℕ, ◌<◌, ◌≡◌, ◌≢◌, Bool, false, Bool-cases, Option-cases, Result-cases, inl, inr, none, some, ok,
  ◌==◌, leb, arith,
}
use lexicode.Domain.Words.{Key, Time}
use lexicode.Store.Db.{Db}
use lexicode.Sched.World.{World}
use lexicode.Guard.{Config, Input, GuardPass, Verdict, proceed}
use lexicode.Guard.SkipToken.{has_skip_token}
use lexicode.Guard.Chain.{chain_depth}
use lexicode.Guard.Budget.{check_budget}
use lexicode.Guard.Layers.{
  is_suppressed, absorb, superseded, record_stop, stop_loop, budget_layer, depth_layer,
  evaluate_with,
}

-- The layers' answers behind a verdict to proceed.
pub record Cleared (cfg : Config) (now : Time) (day : ℕ) (w : World) (in_ : Input) (p : GuardPass)
    : Type 0 where
  pub clean : has_skip_token in_.payload ≡ false
  pub unsuppressed : is_suppressed cfg in_ ≡ false
  pub unabsorbed : absorb now w.db cfg in_ ≡ none
  pub shallow :
      0 < cfg.depth_limit
      → (d : ℕ) → chain_depth w.db in_.event in_.subject_key ≡ ok d
      → (d < cfg.depth_limit) × (p.depth ≡ d)
  pub solvent : check_budget w.db day in_ cfg ≡ none
  pub elected : p.superseded_run_id ≡ superseded w.db cfg in_

budget_layer-proceed :
    (day : ℕ) (w : World) (cfg : Config) (in_ : Input) (depth : ℕ) {p : GuardPass}
    → (budget_layer day w cfg in_ depth).1 ≡ proceed p
    → (check_budget w.db day in_ cfg ≡ none)
      × (p.depth ≡ depth)
      × (p.superseded_run_id ≡ superseded w.db cfg in_)
unfolding budget_layer
budget_layer-proceed day w cfg in_ depth h = ground arith

stop_loop-proceed :
    (loop : Bool) (new_id : Key) (now : Time) (w : World) (in_ : Input) (depth limit : ℕ)
    {p : GuardPass}
    → (stop_loop loop new_id now w in_ depth limit).1 ≢ proceed p
unfolding stop_loop record_stop
stop_loop-proceed loop new_id now w in_ depth limit h = ground arith

depth_layer-proceed :
    (loop : Bool) (new_id : Key) (now : Time) (day : ℕ) (w : World) (cfg : Config) (in_ : Input)
    {p : GuardPass}
    → (depth_layer loop new_id now day w cfg in_).1 ≡ proceed p
    → (depth : ℕ) × ((budget_layer day w cfg in_ depth).1 ≡ proceed p)
      × (0 < cfg.depth_limit
          → (d : ℕ) → chain_depth w.db in_.event in_.subject_key ≡ ok d
          → (d < cfg.depth_limit) × (depth ≡ d))
unfolding depth_layer
depth_layer-proceed loop new_id now day w cfg in_ {p} h = elim (Bool-cases (cfg.depth_limit == 0)) [
  | inl off ↦ (0, rw (off, depth_layer) at h, λ pos. ground arith)
  | inr on ↦ elim (Result-cases (chain_depth w.db in_.event in_.subject_key)) [
    | inr (x, e) ↦ (0, rw (on, e, depth_layer) at h, λ pos d k. ground arith)
    | inl (d, e) ↦ elim (Bool-cases (leb cfg.depth_limit d)) [
      | inl deep ↦ absurd (
          stop_loop-proceed loop new_id now w in_ d cfg.depth_limit
            (rw (on, e, deep, depth_layer) at h))
      | inr under ↦ (d, rw (on, e, under, depth_layer) at h, λ pos d' k. ground arith)
    ]
  ]
]

absorb-proceed :
    (now : Time) (db : Db) (cfg : Config) (in_ : Input) {v : Verdict} {p : GuardPass}
    → absorb now db cfg in_ ≡ some v
    → v ≢ proceed p
unfolding absorb
absorb-proceed now db cfg in_ e h = ground arith

pub evaluate_with-Cleared :
    (cfg : Config) (loop : Bool) (new_id : Key) (now : Time) (day : ℕ) (w : World) (in_ : Input)
    {p : GuardPass}
    → (evaluate_with cfg loop new_id now day w in_).1 ≡ proceed p
    → Cleared cfg now day w in_ p
unfolding evaluate_with
evaluate_with-Cleared cfg loop new_id now day w in_ {p} h =
    elim (Bool-cases (has_skip_token in_.payload)) [
      | inl e ↦ absurd (cc (rw (e, evaluate_with) at h))
      | inr clean ↦ elim (Bool-cases (is_suppressed cfg in_)) [
        | inl e ↦ absurd (cc (rw (clean, e, evaluate_with) at h))
        | inr free ↦ elim (Option-cases (absorb now w.db cfg in_)) [
          | inr (v, e) ↦ absurd (
              absorb-proceed now w.db cfg in_ {p = p} e
                (cc (rw (clean, free, e, evaluate_with) at h)))
          | inl fresh ↦ cleared clean free fresh (rw (clean, free, fresh, evaluate_with) at h)
        ]
      ]
    ]
  where
    cleared :
        has_skip_token in_.payload ≡ false
        → is_suppressed cfg in_ ≡ false
        → absorb now w.db cfg in_ ≡ none
        → (depth_layer loop new_id now day w cfg in_).1 ≡ proceed p
        → Cleared cfg now day w in_ p
    cleared clean free fresh k =
        let (depth, l, under) = depth_layer-proceed loop new_id now day w cfg in_ k in
        let (rich, exact, chosen) = budget_layer-proceed day w cfg in_ depth l in
        record {
          clean = clean;
          unsuppressed = free;
          unabsorbed = fresh;
          shallow = λ pos d e. ground (arith, under pos d e);
          solvent = rich;
          elected = chosen;
        }
