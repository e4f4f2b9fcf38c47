-- ===== src/Triggers/Match.antt =====
-- internal/service/triggers/match.go: stage 1, whether an event matches the WHEN of a trigger.
pub mod Laws
use lexicode.Prelude.{
  ℕ, Bool, true, false, not, ◌&&◌, ◌||◌, List, [], ◌∷◌, ◌++◌, Option, none, some, ◌==◌,
  if◌then◌else◌, any,
}
use lexicode.Domain.Words.{Key}
use lexicode.Domain.Payload.{Text, Json, text, arr, Items, nil, cons, codes, same_text}
use lexicode.Domain.Rows.{Event}
use lexicode.Triggers.Conditions.{glob_match, lookup_path, is_blank}

-- A column of JSON: no text, a text that does not decode, or a value.
pub data Stored (A : Type 0) : Type 0 where
  nothing malformed : Stored A
  value : A → Stored A

-- `triggerFilters`; a list that is absent is empty.
pub record Filters : Type 0 where
  pub branches : List Text
  pub paths : List Text
  pub labels : List Text

-- Of the trigger, what the match reads.
pub record TriggerWhen : Type 0 where
  pub id : Key
  pub event : Key
  pub activity_types : Stored (List Key)
  pub filters : Stored Filters

-- The subject kind "trigger".
abbrev pub trigger_subject : Key
trigger_subject = 6

unfoldable pub string_in : List Text → Text → Bool
unfolding any same_text
string_in list s = any (λ el. same_text el s) list

-- The text at a path, if it is one and not empty.
unfoldable pub text_at : Json → Text → List Text
unfolding lookup_path
text_at payload p = elim (lookup_path payload p) [
  | text s ↦ if is_blank s then [] else s ∷ []
  | _ ↦ []
]

abbrev pub inked : Option Text → List Text
inked none = []
inked (some s) = if is_blank s then [] else s ∷ []

unfoldable pub branch_candidates : Event → Json → List Text
unfolding text_at
branch_candidates e payload = text_at payload (codes "pr.branch") ++ inked e.subject_branch

-- The texts of a list, and those that are not empty.
unfoldable pub all_texts : Items → List Text
all_texts nil = []
all_texts (cons (text s) vs) = s ∷ all_texts vs
all_texts (cons v vs) = all_texts vs

unfoldable pub inked_texts : Items → List Text
inked_texts nil = []
inked_texts (cons (text s) vs) = let rest = inked_texts vs in if is_blank s then rest else s ∷ rest
inked_texts (cons v vs) = inked_texts vs

unfoldable pub items_at : (Items → List Text) → Json → Text → List Text
unfolding lookup_path
items_at pick payload p = elim (lookup_path payload p) [ arr vs ↦ pick vs | _ ↦ [] ]

unfoldable pub path_candidates : Json → List Text
unfolding text_at items_at inked_texts
path_candidates payload =
    text_at payload (codes "comment.path") ++ items_at inked_texts payload (codes "pr.paths")

unfoldable pub label_candidates : Json → List Text
unfolding items_at all_texts
label_candidates payload =
    items_at all_texts payload (codes "pr.labels")
    ++ items_at all_texts payload (codes "ticket.labels")

unfoldable pub any_glob : (Text → Text → Option Bool) → (patterns candidates : List Text) → Bool
unfolding any glob_match
any_glob path_match patterns candidates =
    any (λ p. any (λ c. glob_match path_match p c) candidates) patterns

unfoldable pub any_label : (wanted present : List Text) → Bool
unfolding any string_in
any_label wanted present = any (λ w. string_in present w) wanted

-- An event that is addressed to a trigger is for that trigger only.
unfoldable pub is_addressed : TriggerWhen → Event → Bool
is_addressed tr e =
    if e.subject_kind == trigger_subject
    then elim e.subject_id [ none ↦ false | some id ↦ id == tr.id ]
    else true

unfoldable pub passes_kinds : List Key → Key → Bool
unfolding any
passes_kinds [] activity = true
passes_kinds (k ∷ ks) activity = any (λ el. el == activity) (k ∷ ks)

abbrev pub is_empty : List Text → Bool
is_empty [] = true
is_empty (s ∷ ss) = false

unfoldable pub passes_filters : (Text → Text → Option Bool) → Filters → Event → Json → Bool
passes_filters path_match f e payload =
    (is_empty f.branches || any_glob path_match f.branches (branch_candidates e payload))
    && (is_empty f.paths || any_glob path_match f.paths (path_candidates payload))
    && (is_empty f.labels || any_label f.labels (label_candidates payload))

unfoldable pub filters_pass : (Text → Text → Option Bool) → Stored Filters → Event → Json → Bool
unfolding passes_filters
filters_pass path_match nothing e payload = true
filters_pass path_match malformed e payload = false
filters_pass path_match (value f) e payload = passes_filters path_match f e payload

unfoldable pub kinds_pass : Stored (List Key) → Key → Bool
unfolding passes_kinds
kinds_pass nothing activity = true
kinds_pass malformed activity = false
kinds_pass (value ks) activity = passes_kinds ks activity

-- `matchStage`
unfoldable pub match_stage : (Text → Text → Option Bool) → TriggerWhen → Event → Json → Bool
unfolding is_addressed kinds_pass filters_pass
match_stage path_match tr e payload =
    e.kind == tr.event
    && is_addressed tr e
    && kinds_pass tr.activity_types e.activity_type
    && filters_pass path_match tr.filters e payload
