-- ===== src/Mentions/Labels.antt =====
-- What `Parse`, `MaskTokens` and `RewriteWikiLabels` of internal/service/mentionparse/mentionparse.go do to
-- a text.
use lexicode.Prelude.{
  ℕ, zero, suc, ◌+◌, ◌≤◌, ◌<◌, ◌≡◌, refl, ◌∙◌, sym, ap, List, [], ◌∷◌, ◌++◌, none, some, length,
  Option-cases, inl, inr, arith,
}
use lexicode.Domain.Payload.{Text}
use lexicode.Mentions.{
  Mention, mention_at, token, Piece, plain, mention, pieces_of, pieces, text_of, blank_text, mask,
  mask_tokens,
}
use lexicode.Mentions.Tokens.{mention_at-token}

length-append : {A : Type 0} (xs ys : List A) → length (xs ++ ys) ≡ length xs + length ys
length-append [] ys = omega arith
length-append (x ∷ xs) ys = omega (arith, length-append xs ys)

token-pos : (m : Mention) → 0 < length (token m)
unfolding token
token-pos m = omega arith

pieces_of-plain :
    (f c : ℕ) (cs : Text)
    → mention_at (c ∷ cs) ≡ none
    → pieces_of (suc f) (c ∷ cs) ≡ plain c ∷ pieces_of f cs
unfolding pieces_of
pieces_of-plain f c cs e = rw (e, pieces_of) refl

pieces_of-mention :
    (f c : ℕ) (cs : Text) {m : Mention} {rest : Text}
    → mention_at (c ∷ cs) ≡ some (m, rest)
    → pieces_of (suc f) (c ∷ cs) ≡ mention m ∷ pieces_of f rest
unfolding pieces_of
pieces_of-mention f c cs e = rw (e, pieces_of) refl

-- With fuel for its length, a text is its pieces put together again.
pieces_of-text : (f : ℕ) (s : Text) → length s ≤ f → text_of (pieces_of f s) ≡ s
unfolding pieces_of text_of
pieces_of-text zero [] le = refl
pieces_of-text zero (c ∷ cs) le = absurd (omega arith)
pieces_of-text (suc f) [] le = refl
pieces_of-text (suc f) (c ∷ cs) le = elim (Option-cases (mention_at (c ∷ cs))) [
  | inl e ↦
      ap text_of (pieces_of-plain f c cs e)
      ∙ ap (λ (t : Text). c ∷ t) (pieces_of-text f cs (omega arith))
  | inr ((m, rest), e) ↦
      let (valid, whole) = mention_at-token (c ∷ cs) e in
      let shorter : length rest ≤ f =
        omega
          (arith, ap (λ (t : Text). length t) whole, length-append (token m) rest, token-pos m) in
      ap text_of (pieces_of-mention f c cs e)
      ∙ ap (λ (t : Text). token m ++ t) (pieces_of-text f rest shorter)
      ∙ sym whole
]

-- No character of a text is lost or made up by reading it: the pieces of a body, mentions in their wire
-- format, give the body again.
pub pieces-text : (s : Text) → text_of (pieces s) ≡ s
unfolding pieces
pieces-text s = pieces_of-text (length s) s (omega arith)

blank_text-length : (s : Text) → length (blank_text s) ≡ length s
unfolding blank_text
blank_text-length [] = refl
blank_text-length (c ∷ cs) = omega (arith, blank_text-length cs)

mask-length : (ps : List Piece) → length (mask ps) ≡ length (text_of ps)
unfolding mask text_of
mask-length [] = refl
mask-length (plain c ∷ ps) = omega (arith, mask-length ps)
mask-length (mention m ∷ ps) = omega (
  arith,
  length-append (blank_text (token m)) (mask ps),
  length-append (token m) (text_of ps),
  blank_text-length (token m),
  mask-length ps,
)

-- A masked body is as long as the body, so that a place in the one is the same place in the other.
pub mask_tokens-length : (s : Text) → length (mask_tokens s) ≡ length s
unfolding mask_tokens
mask_tokens-length s = mask-length (pieces s) ∙ ap (λ (t : Text). length t) (pieces-text s)
