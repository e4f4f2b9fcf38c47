-- ===== src/Triggers/Match/Laws.antt =====
-- Which events `matchStage` of internal/service/triggers/match.go lets a trigger see.
use lexicode.Prelude.{◌≡◌, ◌≢◌, refl, Bool, true, false, List, [], ◌∷◌, Option, some, ◌⊎◌, arith}
use lexicode.Domain.Payload.{Text, Json}
use lexicode.Domain.Rows.{Event}
use lexicode.Triggers.Match.{
  Filters, TriggerWhen, trigger_subject, value, branch_candidates, path_candidates,
  label_candidates, any_glob, any_label, match_stage, passes_filters, filters_pass,
}

-- An event that is addressed to a trigger, as a tick of the clock is, is matched by no other trigger.
pub match_stage-addressed :
    (path_match : Text → Text → Option Bool) (tr : TriggerWhen) (e : Event) (payload : Json)
    → match_stage path_match tr e payload ≡ true
    → e.subject_kind ≡ trigger_subject
    → (e.kind ≡ tr.event) × (e.subject_id ≡ some tr.id)
unfolding match_stage
match_stage-addressed path_match tr e payload h to = ground arith

any_glob-nil :
    (path_match : Text → Text → Option Bool) (patterns : List Text)
    → any_glob path_match patterns [] ≡ false
unfolding any_glob
any_glob-nil path_match [] = refl
any_glob-nil path_match (p ∷ ps) = any_glob-nil path_match ps

any_label-nil : (wanted : List Text) → any_label wanted [] ≡ false
unfolding any_label
any_label-nil [] = refl
any_label-nil (w ∷ ws) = any_label-nil ws

-- A trigger filters on branches, paths or labels that the event does not carry.
abbrev pub IsBare : Filters → Event → Json → Type 0
IsBare f e payload =
    ((f.branches ≢ []) × (branch_candidates e payload ≡ []))
    ⊎ (((f.paths ≢ []) × (path_candidates payload ≡ []))
        ⊎ ((f.labels ≢ []) × (label_candidates payload ≡ [])))

passes_filters-bare :
    (path_match : Text → Text → Option Bool) (f : Filters) (e : Event) (payload : Json)
    → IsBare f e payload
    → passes_filters path_match f e payload ≡ false
unfolding passes_filters
passes_filters-bare path_match f e payload bare = ground (
  arith,
  bare,
  any_glob-nil path_match f.branches,
  any_glob-nil path_match f.paths,
  any_label-nil f.labels,
)

-- A filter on data that the event does not carry is no match, never a silent pass: a trigger that
-- filters on branches, paths or labels never matches an event without any.
pub match_stage-bare :
    (path_match : Text → Text → Option Bool) (tr : TriggerWhen) (e : Event) (payload : Json)
    (f : Filters)
    → tr.filters ≡ value f
    → IsBare f e payload
    → match_stage path_match tr e payload ≡ false
unfolding match_stage filters_pass
match_stage-bare path_match tr e payload f stored bare =
    ground (arith, stored, passes_filters-bare path_match f e payload bare)
