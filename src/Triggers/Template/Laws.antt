-- ===== src/Triggers/Template/Laws.antt =====
-- What `interpolate` of internal/service/triggers/interp.go leaves, and that it ends.
use lexicode.Prelude.{
  ℕ, zero, suc, ◌<◌, ◌≡◌, refl, ap, ◌&&◌, [], ◌∷◌, none, some, ◌==◌, length, arith, Bool-cases,
  Option-cases, inl, inr,
}
use lexicode.Domain.Payload.{Text, Json}
use lexicode.Triggers.Template.{cut_pair, put_text, render_path, render, interpolate}

cut_pair-shorter :
    (c : ℕ) (s : Text) {before after : Text}
    → cut_pair c s ≡ some (before, after)
    → length after < length s
unfolding cut_pair
cut_pair-shorter c [] h = absurd (cc)
cut_pair-shorter c (a ∷ []) h = absurd (cc)
cut_pair-shorter c (a ∷ b ∷ s) {before} {after} h = elim (Bool-cases (a == c && b == c)) [
  | inl e ↦ ground arith
  | inr e ↦ elim (Option-cases (cut_pair c (b ∷ s))) [
    | inl n ↦ ground arith
    | inr ((x, y), n) ↦ ground (arith, cut_pair-shorter c (b ∷ s) n)
  ]
]

-- One round needs no more of the next ones than that they render what is left of the text.
render-round :
    (marshal : Json → Text) (payload : Json) (fuel fuel' : ℕ) (s : Text)
    → ((t : Text)
        → length t < length s
        → render marshal payload fuel t ≡ render marshal payload fuel' t)
    → render marshal payload (suc fuel) s ≡ render marshal payload (suc fuel') s
unfolding render
render-round marshal payload fuel fuel' s ih = elim (Option-cases (cut_pair b'{' s)) [
  | inl e ↦ rw (e, render) refl
  | inr ((before, after), e) ↦ elim (Option-cases (cut_pair b'}' after)) [
    | inl f ↦ rw (e, f, render) refl
    | inr ((inner, rest), f) ↦
        let shorter : length rest < length s =
          omega (arith, cut_pair-shorter b'{' s e, cut_pair-shorter b'}' after f) in
        rw (e, f, render)
          (ap (λ r. put_text before (render_path marshal payload inner r)) (ih rest shorter))
  ]
]

render-enough :
    (marshal : Json → Text) (payload : Json) (fuel fuel' : ℕ) (s : Text)
    → length s < fuel
    → length s < fuel'
    → render marshal payload fuel s ≡ render marshal payload fuel' s
render-enough marshal payload zero fuel' s le le' = absurd (omega arith)
render-enough marshal payload (suc fuel) zero s le le' = absurd (omega arith)
render-enough marshal payload (suc fuel) (suc fuel') s le le' =
    render-round marshal payload fuel fuel' s
      λ t shorter. render-enough marshal payload fuel fuel' t (omega arith) (omega arith)

-- A template without an opening double brace is its own rendering, with no warning.
pub interpolate-plain :
    (marshal : Json → Text) (payload : Json) (s : Text)
    → cut_pair b'{' s ≡ none
    → interpolate marshal payload s ≡ (s, [])
unfolding interpolate
interpolate-plain marshal payload s h = rw (h, render) refl

-- A template with a first pair of double braces renders as the text before it, what the text inside
-- it stands for, and the rendering of what comes after it: no limit on the rounds is felt.
pub interpolate-braces :
    (marshal : Json → Text) (payload : Json) (s : Text) {before after inner rest : Text}
    → cut_pair b'{' s ≡ some (before, after)
    → cut_pair b'}' after ≡ some (inner, rest)
    → interpolate marshal payload s
      ≡ put_text before (render_path marshal payload inner (interpolate marshal payload rest))
unfolding interpolate render
interpolate-braces marshal payload s {before} {after} {inner} {rest} e f =
    let shorter : length rest < length s =
      omega (arith, cut_pair-shorter b'{' s e, cut_pair-shorter b'}' after f) in
    rw (e, f, render)
      (ap (λ r. put_text before (render_path marshal payload inner r))
        (render-enough marshal payload (length s) (suc (length rest)) rest shorter (omega arith)))
