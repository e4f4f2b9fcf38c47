-- ===== src/Cron/Expr.antt =====
-- internal/module/cron/expr.go: cron expressions. A bitset is the function that tells which bits are
-- set; `strconv.Atoi` of the Go library is an argument.
pub mod Steps
pub mod Range
use lexicode.Prelude.{
  ℕ, zero, suc, ◌+◌, Bool, true, false, not, ◌&&◌, ◌||◌, List, [], ◌∷◌, Option, none, some, Result,
  ok, err, ◌==◌, ltb, leb, if◌then◌else◌,
}
use lexicode.Domain.Payload.{Text, codes, same_text, split_at}
use lexicode.Guard.SkipToken.{lower, is_space}

-- What Atoi makes of a text.
pub data Atoi : Type 0 where
  no_number negative : Atoi
  number : ℕ → Atoi

abbrev pub Bits : Type 0
Bits = ℕ → Bool

abbrev pub no_bits : Bits
no_bits v = false

abbrev pub bit_or : Bits → Bits → Bits
bit_or a b v = a v || b v

-- `fieldSpec`; `names` is empty where the field takes none.
pub record FieldSpec : Type 0 where
  pub low : ℕ
  pub high : ℕ
  pub names : List (Text × ℕ)

abbrev pub month_names : List (Text × ℕ)
month_names =
    (codes "jan", 1)
    ∷ (codes "feb", 2)
    ∷ (codes "mar", 3)
    ∷ (codes "apr", 4)
    ∷ (codes "may", 5)
    ∷ (codes "jun", 6)
    ∷ (codes "jul", 7)
    ∷ (codes "aug", 8)
    ∷ (codes "sep", 9)
    ∷ (codes "oct", 10)
    ∷ (codes "nov", 11)
    ∷ (codes "dec", 12)
    ∷ []

abbrev pub dow_names : List (Text × ℕ)
dow_names =
    (codes "sun", 0)
    ∷ (codes "mon", 1)
    ∷ (codes "tue", 2)
    ∷ (codes "wed", 3)
    ∷ (codes "thu", 4)
    ∷ (codes "fri", 5)
    ∷ (codes "sat", 6)
    ∷ []

abbrev pub minute_spec : FieldSpec
minute_spec = record { low = 0; high = 59; names = [] }

abbrev pub hour_spec : FieldSpec
hour_spec = record { low = 0; high = 23; names = [] }

abbrev pub dom_spec : FieldSpec
dom_spec = record { low = 1; high = 31; names = [] }

abbrev pub month_spec : FieldSpec
month_spec = record { low = 1; high = 12; names = month_names }

abbrev pub dow_spec : FieldSpec
dow_spec = record { low = 0; high = 7; names = dow_names }

pub data CronError : Type 0 where
  not_five_fields empty_entry bad_step zero_step reversed bad_value out_of_range : CronError
  -- Not an error value: the shift by a negative number panics.
  panics : CronError

-- The entry of a table of names.
unfoldable pub named : List (Text × ℕ) → Text → Option ℕ
unfolding same_text
named [] s = none
named ((key, v) ∷ names) s = if same_text key s then some v else named names s

-- strings.Cut at one character: what stands before it and after it.
unfoldable pub cut : ℕ → Text → Option (Text × Text)
cut at [] = none
cut at (c ∷ s) =
    let rest = cut at s in
    if c == at then some ([], s) else elim rest [ none ↦ none | some (a, b) ↦ some (c ∷ a, b) ]

-- strings.Fields: the runs of characters between white space. `inside` says that the character before
-- belongs to one.
unfoldable pub words : (inside : Bool) → Text → List Text
unfolding is_space
words inside [] = if inside then [] ∷ [] else []
words inside (c ∷ s) =
    let after = words false s in
    let rest = words true s in
    if is_space c
    then (if inside then [] ∷ after else after)
    else elim rest [ [] ↦ (c ∷ []) ∷ [] | w ∷ ws ↦ (c ∷ w) ∷ ws ]

-- The first number that an int of 64 bits does not hold.
abbrev pub int_end : ℕ
int_end = 9223372036854775808

-- The loop of `parsePart`: it sets the bits from `v` to `hi`, `step` apart. A `v` past the end of an int wraps
-- to a negative number, which the loop takes for one below `hi`, and the shift by it panics: there is no
-- result.
unfoldable pub mark : (fuel v hi step : ℕ) → Bits → Option Bits
mark zero v hi step bits = some bits
mark (suc fuel) v hi step bits =
    let rest = mark fuel (v + step) hi step (λ w. w == v || bits w) in
    if not (leb v hi) then some bits else if leb int_end (v + step) then none else rest

unfoldable pub in_range : FieldSpec → Atoi → Result CronError ℕ
in_range spec no_number = err bad_value
in_range spec negative = err out_of_range
in_range spec (number v) = if ltb v spec.low || ltb spec.high v then err out_of_range else ok v

unfoldable pub spread : (step : ℕ) → Result CronError (ℕ × ℕ) → Result CronError Bits
unfolding mark
spread step (err e) = err e
spread step (ok (lo, hi)) = elim (mark (suc hi) lo hi step no_bits) [
  | none ↦ err panics
  | some bits ↦ ok bits
]

module _ (atoi : Text → Atoi) where
  -- `parseValue`
  unfoldable pub parse_value : FieldSpec → Text → Result CronError ℕ
  unfolding named lower in_range
  parse_value spec s = elim (named spec.names (lower s)) [
    | some v ↦ ok v
    | none ↦ in_range spec (atoi s)
  ]

  -- The bounds of an entry without its step; `stepped` says that it has one.
  unfoldable pub parse_bounds : FieldSpec → Text → (stepped : Bool) → Result CronError (ℕ × ℕ)
  unfolding cut
  parse_bounds spec range stepped =
      if same_text range (codes "*") then ok (spec.low, spec.high) else elim (cut b'-' range) [
        | some (a, b) ↦ elim (parse_value spec a) [
          | err e ↦ err e
          | ok lo ↦ elim (parse_value spec b) [
            | err e ↦ err e
            | ok hi ↦ if ltb hi lo then err reversed else ok (lo, hi)
          ]
        ]
        | none ↦ elim (parse_value spec range) [
          | err e ↦ err e
          | ok v ↦ if stepped then ok (v, spec.high) else ok (v, v)
        ]
      ]

  unfoldable pub parse_step : FieldSpec → (range : Text) → Atoi → Result CronError Bits
  parse_step spec range no_number = err bad_step
  parse_step spec range negative = err zero_step
  parse_step spec range (number n) =
      if n == 0 then err zero_step else spread n (parse_bounds spec range true)

  -- `parsePart`
  unfoldable pub parse_part : FieldSpec → Text → Result CronError Bits
  unfolding cut spread parse_step
  parse_part spec part = elim (cut b'/' part) [
    | some (range, step) ↦ parse_step spec range (atoi step)
    | none ↦ spread 1 (parse_bounds spec part false)
  ]

  -- The loop of `parseField`.
  unfoldable pub parse_parts : FieldSpec → List Text → Bits → Result CronError Bits
  parse_parts spec [] bits = ok bits
  parse_parts spec ([] ∷ parts) bits = err empty_entry
  parse_parts spec ((c ∷ s) ∷ parts) bits = elim (parse_part spec (c ∷ s)) [
    | err e ↦ err e
    | ok b ↦ parse_parts spec parts (bit_or bits b)
  ]

  -- `parseField`
  unfoldable pub parse_field : FieldSpec → Text → Result CronError Bits
  unfolding split_at
  parse_field spec field = parse_parts spec (split_at b',' field) no_bits

-- `Expr`
pub record Expr : Type 0 where
  pub minute : Bits
  pub hour : Bits
  pub dom : Bits
  pub month : Bits
  pub dow : Bits
  pub dom_star : Bool
  pub dow_star : Bool

-- 7, the other Sunday, becomes 0.
unfoldable pub fold_sunday : Bits → Bits
fold_sunday bits v = if bits 7 then v == 0 || (not (v == 7) && bits v) else bits v

module _ (atoi : Text → Atoi) where
  unfoldable pub parse_five : (minute hour dom month dow : Text) → Result CronError Expr
  unfolding fold_sunday
  parse_five minute hour dom month dow = elim (parse_field atoi minute_spec minute) [
    | err e ↦ err e
    | ok minutes ↦ elim (parse_field atoi hour_spec hour) [
      | err e ↦ err e
      | ok hours ↦ elim (parse_field atoi dom_spec dom) [
        | err e ↦ err e
        | ok doms ↦ elim (parse_field atoi month_spec month) [
          | err e ↦ err e
          | ok months ↦ elim (parse_field atoi dow_spec dow) [
            | err e ↦ err e
            | ok dows ↦ ok (record {
              minute = minutes;
              hour = hours;
              dom = doms;
              month = months;
              dow = fold_sunday dows;
              dom_star = same_text dom (codes "*");
              dow_star = same_text dow (codes "*");
            })
          ]
        ]
      ]
    ]
  ]

  unfoldable pub parse_words : List Text → Result CronError Expr
  unfolding parse_five
  parse_words (minute ∷ hour ∷ dom ∷ month ∷ dow ∷ []) = parse_five minute hour dom month dow
  parse_words _ = err not_five_fields

  -- `Parse`
  unfoldable pub parse : Text → Result CronError Expr
  unfolding words parse_words
  parse s = parse_words (words false s)

-- A moment in UTC, as package time tells it.
pub record Moment : Type 0 where
  pub minute : ℕ
  pub hour : ℕ
  pub day : ℕ
  pub month : ℕ
  pub weekday : ℕ

-- `Matches`
unfoldable pub matches : Expr → Moment → Bool
matches e t =
    if not (e.minute t.minute) || not (e.hour t.hour) || not (e.month t.month)
    then false
    else if e.dom_star
    then (if e.dow_star then true else e.dow t.weekday)
    else if e.dow_star
    then e.dom t.day
    else e.dom t.day || e.dow t.weekday
