-- ===== src/Cron/Expr/Steps.antt =====
-- What the stepping loop of `parsePart` in internal/module/cron/expr.go sets.
use lexicode.Prelude.{
  ℕ, zero, suc, some, sym, ◌+◌, ◌≤◌, ◌<◌, ◌≡◌, true, ◌||◌, ◌==◌, leb, Bool-cases, inl, inr, ◌⊎◌,
  ◌↔◌, subst, arith,
}
use lexicode.Cron.Expr.{Bits, no_bits, int_end, mark}

-- The number is reached from another by steps of one size.
pub data Steps (step : ℕ) : ℕ → ℕ → Type 0 where
  there : {v : ℕ} → Steps step v v
  onward : {v w : ℕ} → Steps step (v + step) w → Steps step v w

pub Steps-ge : {step v w : ℕ} → Steps step v w → v ≤ w
Steps-ge there = omega arith
Steps-ge (onward s) = omega (arith, Steps-ge s)

-- A round of the loop.
mark-suc :
    (fuel v hi step : ℕ) (bits : Bits) {out : Bits}
    → mark (suc fuel) v hi step bits ≡ some out
    → ((hi < v) × (bits ≡ out))
      ⊎ ((v ≤ hi) × (mark fuel (v + step) hi step (λ w. w == v || bits w) ≡ some out))
unfolding mark
mark-suc fuel v hi step bits {out} h = elim (Bool-cases (leb v hi)) [
  | inr past ↦ inl (ground arith, ground (arith, rw (past, mark) at h))
  | inl within ↦ elim (Bool-cases (leb int_end (v + step))) [
    | inl wraps ↦ absurd (cc (rw (within, wraps, mark) at h))
    | inr fits ↦ inr (ground arith, rw (within, fits, mark) at h)
  ]
]

pub mark_sound :
    (fuel v hi step : ℕ) (bits : Bits) (w : ℕ) {out : Bits}
    → mark fuel v hi step bits ≡ some out
    → out w ≡ true
    → (bits w ≡ true) ⊎ ((w ≤ hi) × Steps step v w)
unfolding mark
mark_sound zero v hi step bits w {out} h set =
    let same : bits ≡ out = ground (arith, h) in
    inl (subst (λ (b : Bits). b w ≡ true) (sym same) set)
mark_sound (suc fuel) v hi step bits w {out} h set = elim (mark-suc fuel v hi step bits h) [
  | inl (past, same) ↦ inl (subst (λ (b : Bits). b w ≡ true) (sym same) set)
  | inr (within, rest) ↦
      elim (mark_sound fuel (v + step) hi step (λ x. x == v || bits x) w rest set) [
        | inr (le, s) ↦ inr (le, onward s)
        | inl old ↦ elim (Bool-cases (w == v)) [
          | inr other ↦ inl (ground arith)
          | inl same ↦ inr (ground arith, subst (Steps step v) (ground arith) there)
        ]
      ]
]

mark-old :
    (fuel v hi step : ℕ) (bits : Bits) (w : ℕ) {out : Bits}
    → mark fuel v hi step bits ≡ some out
    → bits w ≡ true
    → out w ≡ true
unfolding mark
mark-old zero v hi step bits w {out} h old =
    let same : bits ≡ out = ground (arith, h) in subst (λ (b : Bits). b w ≡ true) same old
mark-old (suc fuel) v hi step bits w h old = elim (mark-suc fuel v hi step bits h) [
  | inl (past, same) ↦ subst (λ (b : Bits). b w ≡ true) same old
  | inr (within, rest) ↦
      mark-old fuel (v + step) hi step (λ x. x == v || bits x) w rest (ground (arith, old))
]

mark_complete :
    (fuel v hi step : ℕ) (bits : Bits) (w : ℕ) {out : Bits}
    → 0 < step
    → hi < v + fuel
    → w ≤ hi
    → Steps step v w
    → mark fuel v hi step bits ≡ some out
    → out w ≡ true
mark_complete zero v hi step bits w pos enough le s h = absurd (omega (arith, Steps-ge s))
mark_complete (suc fuel) v hi step bits w pos enough le there h =
    elim (mark-suc fuel v hi step bits h) [
      | inl (past, same) ↦ absurd (omega (arith, past, le))
      | inr (within, rest) ↦
          mark-old fuel (v + step) hi step (λ x. x == v || bits x) w rest (ground arith)
    ]
mark_complete (suc fuel) v hi step bits w pos enough le (onward s) h =
    elim (mark-suc fuel v hi step bits h) [
      | inl (past, same) ↦ absurd (omega (arith, past, Steps-ge s))
      | inr (within, rest) ↦
          mark_complete fuel (v + step) hi step (λ x. x == v || bits x) w pos (omega arith) le s
            rest
    ]

-- The loop that spreads an entry over its bounds, if it does not panic, sets exactly the bits that are reached
-- from the lower bound by steps of the given size, up to the upper bound: it goes round often enough.
pub mark_iff-Steps :
    (lo hi step w : ℕ) {out : Bits}
    → 0 < step
    → mark (suc hi) lo hi step no_bits ≡ some out
    → (out w ≡ true) ↔ ((w ≤ hi) × Steps step lo w)
mark_iff-Steps lo hi step w pos h = (
  λ e. set (mark_sound (suc hi) lo hi step no_bits w h e),
  λ (le, s). mark_complete (suc hi) lo hi step no_bits w pos (omega arith) le s h,
)
  where
    set : (no_bits w ≡ true) ⊎ ((w ≤ hi) × Steps step lo w) → (w ≤ hi) × Steps step lo w
    set (inl h) = absurd (cc)
    set (inr h) = h
