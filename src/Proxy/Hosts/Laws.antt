-- ===== src/Proxy/Hosts/Laws.antt =====
-- What an allow set accepts.
use lexicode.Prelude.{
  ℕ, Bool, true, false, ◌||◌, List, [], ◌∷◌, ◌++◌, none, some, ◌≡◌, refl, ◌⊎◌, ◌↔◌, ◌≢◌, inl, inr,
  any, arith, Option-cases, ap, sym, ◌∙◌, subst,
}
use lexicode.Domain.Payload.{Text, codes, same_text}
use lexicode.Mentions.{after_prefix}
use lexicode.Mentions.Tokens.{after_prefix-some, after_prefix-append}
use lexicode.Proxy.Hosts.{
  has_suffix, HostMatcher, add_pattern, normalize_host, new_host_matcher, match_normal, match_host,
}

pub same_text_iff : (s t : Text) → (same_text s t ≡ true) ↔ (s ≡ t)
unfolding same_text
same_text_iff [] [] = ground arith
same_text_iff [] (b ∷ t) = ground arith
same_text_iff (a ∷ s) [] = ground arith
same_text_iff (a ∷ s) (b ∷ t) = ground (arith, same_text_iff s t)

-- A text ends in a suffix.
abbrev pub EndsIn : Text → Text → Type 0
EndsIn suffix h = (front : Text) × (h ≡ front ++ suffix)

pub or_iff :
    {P Q : Type 0} (a b : Bool) → (a ≡ true) ↔ P → (b ≡ true) ↔ Q → ((a || b) ≡ true) ↔ (P ⊎ Q)
or_iff true b p q = (λ _. inl (p.0 refl), λ _. refl)
or_iff false b p q = (λ h. inr (q.0 h), λ s. elim s [ inl x ↦ cc (p.1 x) | inr y ↦ q.1 y ])

-- A text ends in a suffix if it is the suffix, or if its tail ends in it.
EndsIn-cons :
    (suffix : Text) (c : ℕ) (s : Text)
    → ((c ∷ s ≡ suffix) ⊎ EndsIn suffix s) ↔ EndsIn suffix (c ∷ s)
EndsIn-cons suffix c s = (
  λ h. elim h [ inl e ↦ ([], e) | inr (front, e) ↦ (c ∷ front, ap (λ (t : Text). c ∷ t) e) ],
  back,
)
  where
    back : EndsIn suffix (c ∷ s) → (c ∷ s ≡ suffix) ⊎ EndsIn suffix s
    back ([], e) = inl e
    back (d ∷ front, e) = inr (front, cc)

EndsIn-nil : (suffix : Text) → EndsIn suffix [] → suffix ≡ []
EndsIn-nil suffix ([], e) = sym e
EndsIn-nil suffix (d ∷ front, e) = absurd (cc)

pub has_suffix_iff : (suffix h : Text) → (has_suffix suffix h ≡ true) ↔ EndsIn suffix h
unfolding has_suffix
has_suffix_iff suffix [] = (
  λ e. ([], (same_text_iff [] suffix).0 e),
  λ e. (same_text_iff [] suffix).1 (sym (EndsIn-nil suffix e)),
)
has_suffix_iff suffix (c ∷ s) =
    let split =
      or_iff (same_text (c ∷ s) suffix) (has_suffix suffix s) (same_text_iff (c ∷ s) suffix)
        (has_suffix_iff suffix s) in
    (λ e. (EndsIn-cons suffix c s).0 (split.0 e), λ e. split.1 ((EndsIn-cons suffix c s).1 e))

-- Some member of a list has a property.
abbrev pub Some {ℓ} : {A : Type ℓ} → (A → Type 0) → List A → Type 0
Some P [] = ⊥
Some P (x ∷ xs) = P x ⊎ Some P xs

pub any_iff {ℓ} :
    {A : Type ℓ} (p : A → Bool) (P : A → Type 0)
    → ((x : A) → (p x ≡ true) ↔ P x)
    → (xs : List A) → (any p xs ≡ true) ↔ Some P xs
unfolding any
any_iff p P each [] = (λ h. cc, λ h. absurd h)
any_iff p P each (x ∷ xs) = or_iff (p x) (any p xs) (each x) (any_iff p P each xs)

-- A pattern, normalized, permits a host: one without a wildcard permits itself, and `*.base` permits
-- `base` and every host that ends in `.base`.
pub data Permits (pattern host : Text) : Type 0 where
  itself : after_prefix (codes "*.") pattern ≡ none → host ≡ pattern → Permits pattern host
  base_of : pattern ≡ codes "*." ++ host → Permits pattern host
  below :
      (base : Text)
      → base ≢ []
      → pattern ≡ codes "*." ++ base
      → EndsIn (codes "." ++ base) host
      → Permits pattern host

-- What a matcher holds of a host.
abbrev Held : HostMatcher → Text → Type 0
Held m h = Some (λ (e : Text). h ≡ e) m.exact ⊎ Some (λ (suffix : Text). EndsIn suffix h) m.suffixes

match_normal_iff :
    (m : HostMatcher) (c : ℕ) (h : Text) → (match_normal m (c ∷ h) ≡ true) ↔ Held m (c ∷ h)
unfolding match_normal
match_normal_iff m c h =
    or_iff (any (same_text (c ∷ h)) m.exact) (any (λ suffix. has_suffix suffix (c ∷ h)) m.suffixes)
      (any_iff _ _ (same_text_iff (c ∷ h)) m.exact)
      (any_iff _ _ (λ suffix. has_suffix_iff suffix (c ∷ h)) m.suffixes)

wildcard : {p base : Text} → p ≡ codes "*." ++ base → after_prefix (codes "*.") p ≡ some base
wildcard {p} {base} e = ap (after_prefix (codes "*.")) e ∙ after_prefix-append (codes "*.") base

-- What a pattern without a wildcard permits, and what one with a wildcard does.
Permits-plain : {p h : Text} → after_prefix (codes "*.") p ≡ none → Permits p h → h ≡ p
Permits-plain e (itself f x) = x
Permits-plain e (base_of f) = absurd (cc (wildcard f))
Permits-plain e (below base pos f end) = absurd (cc (wildcard f))

Permits-wild :
    {p h base : Text}
    → after_prefix (codes "*.") p ≡ some base
    → Permits p h
    → (h ≡ base) ⊎ (base ≢ [] × EndsIn (codes "." ++ base) h)
Permits-wild e (itself f x) = absurd (cc)
Permits-wild {p} {h} {base} e (base_of f) = inl (cc (wildcard f))
Permits-wild {p} {h} {base} e (below other pos f end) =
    let same : other ≡ base = cc (wildcard f) in
    inr (subst (λ (b : Text). b ≢ [] × EndsIn (codes "." ++ b) h) same (pos, end))

-- A matcher that also holds one more pattern.
add_pattern_iff :
    (p : Text) (m : HostMatcher) (c : ℕ) (h : Text)
    → Held (add_pattern p m) (c ∷ h) ↔ (Permits p (c ∷ h) ⊎ Held m (c ∷ h))
unfolding add_pattern
add_pattern_iff [] m c h = (
  inr,
  λ s. elim s [
    | inl x ↦ absurd (cc (Permits-plain (unfold after_prefix in refl) x))
    | inr held ↦ held
  ],
)
add_pattern_iff (d ∷ s) m c h = elim (Option-cases (after_prefix (codes "*.") (d ∷ s))) [
  | inl e ↦
      rw (e, add_pattern)
        (
          (λ held. elim held [
            | inl (inl x) ↦ inl (itself e x)
            | inl (inr x) ↦ inr (inl x)
            | inr x ↦ inr (inr x)
          ]),
          (λ either. elim either [
            | inl x ↦ inl (inl (Permits-plain e x))
            | inr (inl x) ↦ inl (inr x)
            | inr (inr x) ↦ inr x
          ]),
        )
  | inr ([], e) ↦
      rw (e, add_pattern)
        (
          inr,
          λ either. elim either [
            | inl x ↦ elim (Permits-wild e x) [
              | inl y ↦ absurd (cc)
              | inr (pos, end) ↦ absurd (pos refl)
            ]
            | inr held ↦ held
          ],
        )
  | inr (b ∷ base, e) ↦
      let whole = after_prefix-some (codes "*.") (d ∷ s) e in
      rw (e, add_pattern)
        (
          (λ held. elim held [
            | inl (inl x) ↦ inl (base_of (whole ∙ ap (λ (t : Text). codes "*." ++ t) (sym x)))
            | inl (inr x) ↦ inr (inl x)
            | inr (inl x) ↦ inl (below (b ∷ base) (λ f. cc) whole x)
            | inr (inr x) ↦ inr (inr x)
          ]),
          (λ either. elim either [
            | inl x ↦ elim (Permits-wild e x) [
              | inl y ↦ inl (inl y)
              | inr (pos, end) ↦ inr (inl end)
            ]
            | inr (inl x) ↦ inl (inr x)
            | inr (inr x) ↦ inr (inr x)
          ]),
        )
]

module _ (to_lower : ℕ → ℕ) where
  matcher_iff :
      (patterns : List Text) (c : ℕ) (h : Text)
      → Held (new_host_matcher to_lower patterns) (c ∷ h)
        ↔ Some (λ (p : Text). Permits (normalize_host to_lower p) (c ∷ h)) patterns
  unfolding new_host_matcher
  matcher_iff [] c h = (λ s. elim s [ inl x ↦ x | inr x ↦ x ], λ s. inl s)
  matcher_iff (p ∷ ps) c h =
      let one = add_pattern_iff (normalize_host to_lower p) (new_host_matcher to_lower ps) c h in
      let rest = matcher_iff ps c h in
      (
        (λ held. elim (one.0 held) [ inl x ↦ inl x | inr x ↦ inr (rest.0 x) ]),
        (λ either. one.1 (elim either [ inl x ↦ inl x | inr x ↦ inr (rest.1 x) ])),
      )

  -- A host is let through exactly if it is not blank and some pattern permits it, both compared in lower
  -- case, without blanks around and without a final dot.
  pub match_host_iff :
      (patterns : List Text) (host : Text)
      → (match_host to_lower (new_host_matcher to_lower patterns) host ≡ true) ↔ (
          normalize_host to_lower host ≢ []
          × Some
              (λ (p : Text). Permits (normalize_host to_lower p) (normalize_host to_lower host))
              patterns)
  unfolding match_host match_normal
  match_host_iff patterns host = normal (normalize_host to_lower host)
    where
      normal :
          (h : Text)
          → (match_normal (new_host_matcher to_lower patterns) h ≡ true)
            ↔ (h ≢ [] × Some (λ (p : Text). Permits (normalize_host to_lower p) h) patterns)
      normal [] = (λ e. absurd (cc e), λ (ink, s). absurd (ink refl))
      normal (c ∷ h) =
          let held = match_normal_iff (new_host_matcher to_lower patterns) c h in
          let all = matcher_iff patterns c h in
          (λ e. ((λ f. cc), all.0 (held.0 e)), λ (ink, s). held.1 (all.1 s))
