-- ===== src/Cron/Expr/Range.antt =====
-- The range of what the fields of internal/module/cron/expr.go fire on.
use lexicode.Prelude.{
  ℕ, suc, ◌≤◌, ◌≡◌, Bool, true, false, List, [], ◌∷◌, some, ok, ◌==◌, Bool-cases, Option-cases,
  Result-cases, inl, inr, All, subst, sym, ap, arith,
}
use lexicode.Domain.Payload.{Text, same_text, codes}
use lexicode.Cron.Expr.{
  words, Expr, dow_spec, fold_sunday, parse_five, parse_words, parse, Atoi, no_number, negative,
  number, Bits, bit_or, no_bits, FieldSpec, named, cut, mark, in_range, parse_value, parse_bounds,
  spread, parse_step, parse_part, parse_parts, parse_field,
}
use lexicode.Guard.SkipToken.{lower}
use lexicode.Cron.Expr.Steps.{Steps-ge, mark_sound}

-- A number in the range of a field.
abbrev Within : FieldSpec → ℕ → Type 0
Within spec v = (spec.low ≤ v) × (v ≤ spec.high)

-- The names that a field takes stand for values in its range.
abbrev pub NamesFit : FieldSpec → Type 0
NamesFit spec = All (λ (entry : Text × ℕ). (spec.low ≤ entry.1) × (entry.1 ≤ spec.high)) spec.names

named-All :
    (P : ℕ → Type 0) (names : List (Text × ℕ)) (s : Text) {v : ℕ}
    → All (λ (entry : Text × ℕ). P entry.1) names
    → named names s ≡ some v
    → P v
unfolding named
named-All P [] s fit h = cc
named-All P ((key, u) ∷ names) s {v} fit h = elim (Bool-cases (same_text key s)) [
  | inl e ↦ subst P (ground arith) fit.0
  | inr e ↦ named-All P names s fit.1 (ground arith)
]

module _ (atoi : Text → Atoi) (spec : FieldSpec) (fit : NamesFit spec) where
  parse_value-Within : (s : Text) {v : ℕ} → parse_value atoi spec s ≡ ok v → Within spec v
  unfolding parse_value in_range
  parse_value-Within s {v} h = elim (Option-cases (named spec.names (lower s))) [
    | inl e ↦ ground arith
    | inr (u, e) ↦ ground (arith, named-All (Within spec) spec.names (lower s) fit e)
  ]

  parse_bounds-Within :
      (range : Text) (stepped : Bool) {lo hi : ℕ}
      → parse_bounds atoi spec range stepped ≡ ok (lo, hi)
      → (spec.low ≤ lo) × (hi ≤ spec.high)
  unfolding parse_bounds
  parse_bounds-Within range stepped {lo} {hi} h = elim (Bool-cases (same_text range (codes "*"))) [
    | inl e ↦ ground arith
    | inr e ↦ elim (Option-cases (cut b'-' range)) [
      | inl bare ↦ elim (Result-cases (parse_value atoi spec range)) [
        | inl (v, k) ↦ ground (arith, parse_value-Within range k)
        | inr (x, k) ↦ ground arith
      ]
      | inr ((a, b), split) ↦ elim (Result-cases (parse_value atoi spec a)) [
        | inr (x, k) ↦ ground arith
        | inl (u, k) ↦ elim (Result-cases (parse_value atoi spec b)) [
          | inr (x, l) ↦ ground arith
          | inl (v, l) ↦ ground (arith, parse_value-Within a k, parse_value-Within b l)
        ]
      ]
    ]
  ]

  spread-Within :
      (step : ℕ) (range : Text) (stepped : Bool) (w : ℕ) {bits : Bits}
      → spread step (parse_bounds atoi spec range stepped) ≡ ok bits
      → bits w ≡ true
      → Within spec w
  unfolding spread
  spread-Within step range stepped w {bits} h set =
      elim (Result-cases (parse_bounds atoi spec range stepped)) [
        | inr (x, e) ↦ absurd (cc (rw (e, spread) at h))
        | inl ((lo, hi), e) ↦ elim (Option-cases (mark (suc hi) lo hi step no_bits)) [
          | inl f ↦ absurd (cc (rw (e, f, spread) at h))
          | inr (out, f) ↦
              let same : out ≡ bits = ground (arith, rw (e, f, spread) at h) in
              go lo hi out (parse_bounds-Within range stepped e) f
                (subst (λ (b : Bits). b w ≡ true) (sym same) set)
        ]
      ]
    where
      go :
          (lo hi : ℕ) (out : Bits)
          → (spec.low ≤ lo) × (hi ≤ spec.high)
          → mark (suc hi) lo hi step no_bits ≡ some out
          → out w ≡ true
          → Within spec w
      go lo hi out within made on = elim (mark_sound (suc hi) lo hi step no_bits w made on) [
        | inl h ↦ absurd (cc)
        | inr (le, s) ↦ ground (arith, Steps-ge s)
      ]

  parse_step-Within :
      (range : Text) (n : Atoi) (w : ℕ) {bits : Bits}
      → parse_step atoi spec range n ≡ ok bits
      → bits w ≡ true
      → Within spec w
  unfolding parse_step
  parse_step-Within range no_number w h set = absurd (cc)
  parse_step-Within range negative w h set = absurd (cc)
  parse_step-Within range (number n) w {bits} h set = elim (Bool-cases (n == 0)) [
    | inl e ↦ absurd (cc (rw e at h))
    | inr e ↦ spread-Within n range true w (rw e at h) set
  ]

  parse_part-Within :
      (part : Text) (w : ℕ) {bits : Bits}
      → parse_part atoi spec part ≡ ok bits
      → bits w ≡ true
      → Within spec w
  unfolding parse_part
  parse_part-Within part w {bits} h set = elim (Option-cases (cut b'/' part)) [
    | inl e ↦ spread-Within 1 part false w (rw (e, parse_part) at h) set
    | inr ((range, step), e) ↦ parse_step-Within range (atoi step) w (rw (e, parse_part) at h) set
  ]

  parse_parts-Within :
      (parts : List Text) (w : ℕ) (start : Bits) {bits : Bits}
      → ((start w ≡ true) → Within spec w)
      → parse_parts atoi spec parts start ≡ ok bits
      → bits w ≡ true
      → Within spec w
  unfolding parse_parts
  parse_parts-Within [] w start {bits} old h set =
      let same : start ≡ bits = cc in old (subst (λ (b : Bits). b w ≡ true) (sym same) set)
  parse_parts-Within ([] ∷ parts) w start old h set = absurd (cc)
  parse_parts-Within ((c ∷ s) ∷ parts) w start {bits} old h set =
      elim (Result-cases (parse_part atoi spec (c ∷ s))) [
        | inr (x, e) ↦ absurd (cc (rw (e, parse_parts) at h))
        | inl (b, e) ↦
            parse_parts-Within parts w (bit_or start b) {bits = bits}
              (λ both. elim (Bool-cases (start w)) [
                | inl was ↦ old was
                | inr new ↦ parse_part-Within (c ∷ s) w e (ground arith)
              ])
              (rw (e, parse_parts) at h) set
      ]

-- A field that parses fires on values of its range only, provided that the names it takes are in range.
pub parse_field_within :
    (atoi : Text → Atoi) (spec : FieldSpec) (field : Text) (w : ℕ) {bits : Bits}
    → NamesFit spec
    → parse_field atoi spec field ≡ ok bits
    → bits w ≡ true
    → (spec.low ≤ w) × (w ≤ spec.high)
unfolding parse_field
parse_field_within atoi spec field w fit h set =
    parse_parts-Within atoi spec fit _ w no_bits (λ e. absurd (cc)) h set

dow_spec-NamesFit : NamesFit dow_spec
dow_spec-NamesFit = ground arith

parse_five-dow :
    (atoi : Text → Atoi) (minute hour dom month dow : Text) {e : Expr}
    → parse_five atoi minute hour dom month dow ≡ ok e
    → (days : Bits) × (parse_field atoi dow_spec dow ≡ ok days) × (e.dow ≡ fold_sunday days)
unfolding parse_five
parse_five-dow atoi minute hour dom month dow h = ground arith

parse_words-dow :
    (atoi : Text → Atoi) (fields : List Text) {e : Expr}
    → parse_words atoi fields ≡ ok e
    → (dow : Text) × (days : Bits) × (parse_field atoi dow_spec dow ≡ ok days)
      × (e.dow ≡ fold_sunday days)
unfolding parse_words
parse_words-dow atoi [] h = absurd (cc)
parse_words-dow atoi (a ∷ []) h = absurd (cc)
parse_words-dow atoi (a ∷ b ∷ []) h = absurd (cc)
parse_words-dow atoi (a ∷ b ∷ c ∷ []) h = absurd (cc)
parse_words-dow atoi (a ∷ b ∷ c ∷ d ∷ []) h = absurd (cc)
parse_words-dow atoi (a ∷ b ∷ c ∷ d ∷ f ∷ []) {e} h =
    let (days, parsed, same) = parse_five-dow atoi a b c d f h in (f, days, parsed, same)
parse_words-dow atoi (a ∷ b ∷ c ∷ d ∷ f ∷ g ∷ gs) h = absurd (cc)

fold_sunday-weekday :
    (days : Bits) (w : ℕ) → (days w ≡ true → w ≤ 7) → fold_sunday days w ≡ true → w ≤ 6
unfolding fold_sunday
fold_sunday-weekday days w most h = elim (Bool-cases (w == 7)) [
  | inr other ↦ grind (arith, most)
  | inl last ↦
      let seven : w ≡ 7 = ground arith in
      let same : days w ≡ days 7 = ap days seven in
      elim (Bool-cases (days 7)) [
        | inl folded ↦ absurd (ground (arith, folded))
        | inr free ↦ absurd (ground (arith, free, same))
      ]
]

-- The day-of-week field of an expression that parses fires on the weekdays 0 to 6 only: a Sunday that
-- is written 7 has become 0.
pub parse-weekday :
    (atoi : Text → Atoi) (s : Text) (w : ℕ) {e : Expr}
    → parse atoi s ≡ ok e
    → e.dow w ≡ true
    → w ≤ 6
unfolding parse
parse-weekday atoi s w h on =
    let (dow, days, parsed, same) = parse_words-dow atoi (words false s) h in
    fold_sunday-weekday days w
      (λ set. (parse_field_within atoi dow_spec dow w dow_spec-NamesFit parsed set).1)
      (subst (λ (b : Bits). b w ≡ true) same on)
