-- ===== src/Triggers/Template.antt =====
-- internal/service/triggers/interp.go: the templates of a rule, whose only construct is a path between
-- double braces. How a number, a list or an object is written out, by strconv and encoding/json, is an
-- argument.
pub mod Laws
use lexicode.Prelude.{
  ℕ, zero, suc, Bool, true, false, ◌&&◌, ◌||◌, List, [], ◌∷◌, ◌++◌, Option, none, some, ◌==◌, leb,
  if◌then◌else◌, length,
}
use lexicode.Domain.Payload.{Text, codes, Json, null, bool, text}
use lexicode.Guard.SkipToken.{is_space}
use lexicode.Triggers.Conditions.{lookup_path}

pub data Warning : Type 0 where
  no_path unknown_path : Text → Warning

-- What stands before and after the first place where the character stands twice in a row.
unfoldable pub cut_pair : ℕ → Text → Option (Text × Text)
cut_pair c [] = none
cut_pair c (a ∷ []) = none
cut_pair c (a ∷ b ∷ s) =
    let rest = cut_pair c (b ∷ s) in
    if a == c && b == c
    then some ([], s)
    else elim rest [ none ↦ none | some (x, y) ↦ some (a ∷ x, y) ]

-- `pathPattern`: letters, digits and _ in parts that a dot separates, no part empty or with a digit
-- first. `inside` says that a part has begun.
unfoldable pub is_letter : ℕ → Bool
is_letter c = (leb b'A' c && leb c b'Z') || (leb b'a' c && leb c b'z') || c == b'_'

unfoldable pub is_digit : ℕ → Bool
is_digit c = leb b'0' c && leb c b'9'

unfoldable pub is_path_from : (inside : Bool) → Text → Bool
unfolding is_letter is_digit
is_path_from inside [] = inside
is_path_from false (c ∷ s) = let rest = is_path_from true s in if is_letter c then rest else false
is_path_from true (c ∷ s) =
    let rest = is_path_from true s in
    let part = is_path_from false s in
    if is_letter c || is_digit c then rest else if c == b'.' then part else false

unfoldable pub is_path : Text → Bool
unfolding is_path_from
is_path s = is_path_from false s

-- strings.TrimSpace
unfoldable pub trim_left : Text → Text
unfolding is_space
trim_left [] = []
trim_left (c ∷ s) = let rest = trim_left s in if is_space c then rest else c ∷ s

unfoldable pub trim_right : Text → Text
unfolding is_space
trim_right [] = []
trim_right (c ∷ s) = elim (trim_right s) [
  | [] ↦ if is_space c then [] else c ∷ []
  | d ∷ t ↦ c ∷ d ∷ t
]

abbrev pub trim : Text → Text
trim s = trim_right (trim_left s)

-- A text and its warnings, with more in front.
abbrev pub put_text : Text → Text × List Warning → Text × List Warning
put_text s (t, ws) = (s ++ t, ws)

abbrev pub warn : Warning → Text × List Warning → Text × List Warning
warn w (t, ws) = (t, w ∷ ws)

module _ (marshal : Json → Text) (payload : Json) where
  -- `renderValue`
  unfoldable pub render_value : Json → Text
  render_value (text s) = s
  render_value (bool true) = codes "true"
  render_value (bool false) = codes "false"
  render_value v = marshal v

  -- What goes in the place of the braces and the text between them, before the rest.
  unfoldable pub render_path : Text → Text × List Warning → Text × List Warning
  unfolding is_path trim_left trim_right render_value
  render_path inner rest =
      if is_path (trim inner)
      then elim (lookup_path payload (trim inner)) [
        | null ↦ warn (unknown_path (trim inner)) rest
        | v ↦ put_text (render_value v) rest
      ]
      else warn (no_path inner) rest

  -- The loop of `interpolate`.
  unfoldable pub render : (fuel : ℕ) → Text → Text × List Warning
  unfolding render_path
  render zero s = (s, [])
  render (suc fuel) s = elim (cut_pair b'{' s) [
    | none ↦ (s, [])
    | some (before, after) ↦ elim (cut_pair b'}' after) [
      | none ↦ (before ++ (codes "{{" ++ after), [])
      | some (inner, rest) ↦ put_text before (render_path inner (render fuel rest))
    ]
  ]

  unfoldable pub interpolate : Text → Text × List Warning
  unfolding render
  interpolate s = render (suc (length s)) s
