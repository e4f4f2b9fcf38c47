-- ===== src/Guard/SkipToken/Laws.antt =====
-- The search for a skip token in internal/kernel/guard/layers.go.
use lexicode.Prelude.{
  ◌≡◌, refl, sym, subst, ap, ◌↔◌, Bool, true, Bool-cases, inl, inr, List, [], ◌∷◌, ◌++◌, any, arith,
  some,
}
use lexicode.Domain.Payload.{Text, Json, text, walk, codes}
use lexicode.Guard.SkipToken.{
  to_lower, lower, has_prefix, contains, holds_token, token_at, has_skip_token, skip_paths,
}

has_prefix-append : (tok rest : Text) → has_prefix tok (tok ++ rest) ≡ true
unfolding has_prefix
has_prefix-append [] rest = refl
has_prefix-append (t ∷ tok) rest = ground (arith, has_prefix-append tok rest)

prefix-split : (tok s : Text) → has_prefix tok s ≡ true → (rest : Text) × (s ≡ tok ++ rest)
unfolding has_prefix
prefix-split [] s h = (s, refl)
prefix-split (t ∷ tok) [] h = cc
prefix-split (t ∷ tok) (c ∷ s) h =
    let (rest, e) = prefix-split tok s (ground arith) in (rest, ground arith)

contains_of-split : (tok pre rest : Text) → contains tok (pre ++ (tok ++ rest)) ≡ true
unfolding contains
contains_of-split [] [] [] = ground (arith, has_prefix-append [] [])
contains_of-split [] [] (c ∷ rest) = ground (arith, has_prefix-append [] (c ∷ rest))
contains_of-split (t ∷ tok) [] rest = ground (arith, has_prefix-append (t ∷ tok) rest)
contains_of-split tok (c ∷ pre) rest = ground (arith, contains_of-split tok pre rest)

split_of-contains :
    (tok s : Text)
    → contains tok s ≡ true
    → (pre : Text) × (rest : Text) × (s ≡ pre ++ (tok ++ rest))
unfolding contains
split_of-contains tok [] h = let (rest, e) = prefix-split tok [] h in ([], rest, e)
split_of-contains tok (c ∷ s) h = elim (Bool-cases (has_prefix tok (c ∷ s))) [
  | inl now ↦ let (rest, e) = prefix-split tok (c ∷ s) now in ([], rest, e)
  | inr no_ ↦
      let (pre, rest, e) = split_of-contains tok s (ground arith) in
      (c ∷ pre, rest, ap (λ r. c ∷ r) e)
]

-- The search of a text for a token says yes exactly when the token stands somewhere in the text.
pub contains_iff :
    (tok s : Text)
    → (contains tok s ≡ true) ↔ ((pre : Text) × (rest : Text) × (s ≡ pre ++ (tok ++ rest)))
contains_iff tok s =
    (split_of-contains tok s, λ (pre, rest, e). rw e (contains_of-split tok pre rest))

lower-append : (s t : Text) → lower (s ++ t) ≡ lower s ++ lower t
unfolding lower
lower-append [] t = refl
lower-append (c ∷ s) t = ap (λ r. to_lower c ∷ r) (lower-append s t)

-- A text in which "skip-agent" stands, in capitals or not, holds a skip token.
pub holds_token-spelled :
    (pre word rest : Text)
    → lower word ≡ codes "skip-agent"
    → holds_token (pre ++ (word ++ rest)) ≡ true
unfolding holds_token any
holds_token-spelled pre word rest h =
    let found : contains (codes "skip-agent") (lower (pre ++ (word ++ rest))) ≡ true =
      rw (lower-append, lower-append, h)
        (contains_of-split (codes "skip-agent") (lower pre) (lower rest)) in
    elim (Bool-cases (contains (codes "skip-agents") (lower (pre ++ (word ++ rest))))) [
      | inl e ↦ rw e refl
      | inr e ↦ rw (e, found) refl
    ]

token_at-spelled :
    (payload : Json) (path : List Text) (pre word rest : Text)
    → lower word ≡ codes "skip-agent"
    → walk path payload ≡ some (text (pre ++ (word ++ rest)))
    → token_at payload path ≡ true
unfolding token_at
token_at-spelled payload path pre word rest h at =
    rw (at, token_at) (holds_token-spelled pre word rest h)

any-at :
    {A : Type 0} (p : A → Bool) (before after : List A) (a : A)
    → p a ≡ true
    → any p (before ++ a ∷ after) ≡ true
unfolding any
any-at p [] after a h = ground (arith, h)
any-at p (b ∷ before) after a h = ground (arith, any-at p before after a h)

-- The escape hatch: where the text at one of the paths that are looked at (the bodies of the pull
-- request, comment and review, and the head commit's message) holds "skip-agent", in capitals or not,
-- the payload has a skip token.
pub has_skip_token-spelled :
    (payload : Json) (before after : List (List Text)) (path : List Text) (pre word rest : Text)
    → skip_paths ≡ before ++ path ∷ after
    → lower word ≡ codes "skip-agent"
    → walk path payload ≡ some (text (pre ++ (word ++ rest)))
    → has_skip_token payload ≡ true
unfolding has_skip_token
has_skip_token-spelled payload before after path pre word rest split h at =
    subst (λ paths. any (token_at payload) paths ≡ true) (sym split)
      (any-at (token_at payload) before after path
        (token_at-spelled payload path pre word rest h at))
