-- ===== src/Proxy/Registry/Means.antt =====
-- What the network policy of a run means, beside the patterns that it compiles to.
use lexicode.Prelude.{List, [], ◌∷◌, ◌++◌, ◌≡◌, ◌↔◌, ◌⊎◌, refl, inl, inr, subst}
use lexicode.Domain.Payload.{Text, codes}
use lexicode.Proxy.Hosts.Laws.{Some}
use lexicode.Proxy.Registry.{
  NetworkMode, network_open, network_none, network_allowlist, NetworkPolicy, patterns_of,
}

-- The patterns that a policy means: the hosts of the model, those of the repository, and under an allowlist
-- those of the list.
pub data Means (policy : NetworkPolicy) (git_hosts : List Text) (pattern : Text) : Type 0 where
  model : pattern ≡ codes "api.anthropic.com" → Means policy git_hosts pattern
  login : pattern ≡ codes "claude.ai" → Means policy git_hosts pattern
  repository : Some (λ (p : Text). pattern ≡ p) git_hosts → Means policy git_hosts pattern
  listed :
      policy.mode ≡ network_allowlist
      → Some (λ (p : Text). pattern ≡ p) policy.allow
      → Means policy git_hosts pattern

-- Some member of a list has a property, with the member written out.
pub Some-member :
    (P : Text → Type 0) (xs : List Text)
    → Some P xs ↔ ((x : Text) × Some (λ (y : Text). x ≡ y) xs × P x)
Some-member P [] = (λ h. absurd h, λ (x, there, p). there)
Some-member P (y ∷ ys) = (to (Some-member P ys).0, back (Some-member P ys).1)
  where
    Found : List Text → Type 0
    Found zs = (x : Text) × Some (λ (z : Text). x ≡ z) zs × P x

    to : (Some P ys → Found ys) → Some P (y ∷ ys) → Found (y ∷ ys)
    to rest (inl p) = (y, inl refl, p)
    to rest (inr s) = let (x, there, p) = rest s in (x, inr there, p)

    back : (Found ys → Some P ys) → Found (y ∷ ys) → Some P (y ∷ ys)
    back rest (x, inl e, p) = inl (subst P e p)
    back rest (x, inr there, p) = inr (rest (x, there, p))

Some-append : (P : Text → Type 0) (xs ys : List Text) → Some P (xs ++ ys) ↔ (Some P xs ⊎ Some P ys)
Some-append P [] ys = (λ s. inr s, λ s. elim s [ inl e ↦ absurd e | inr t ↦ t ])
Some-append P (x ∷ xs) ys =
    let rest = Some-append P xs ys in
    (
      λ s. elim s [
        | inl p ↦ inl (inl p)
        | inr t ↦ elim (rest.0 t) [ inl u ↦ inl (inr u) | inr u ↦ inr u ]
      ],
      λ s. elim s [
        | inl t ↦ elim t [ inl p ↦ inl p | inr u ↦ inr (rest.1 (inl u)) ]
        | inr u ↦ inr (rest.1 (inr u))
      ],
    )

abbrev Listed : NetworkMode → List Text → Text → Type 0
Listed mode allow pattern = (mode ≡ network_allowlist) × Some (λ (p : Text). pattern ≡ p) allow

among_iff :
    (mode : NetworkMode) (allow : List Text) (pattern : Text)
    → Some (λ (p : Text). pattern ≡ p) (elim mode [ network_allowlist ↦ allow | _ ↦ [] ])
      ↔ Listed mode allow pattern
among_iff network_open allow pattern = (λ e. absurd e, λ (e, s). absurd (cc))
among_iff network_none allow pattern = (λ e. absurd e, λ (e, s). absurd (cc))
among_iff network_allowlist allow pattern = (λ s. (refl, s), λ (e, s). s)

pub patterns_of-Means :
    (policy : NetworkPolicy) (git_hosts : List Text) (pattern : Text)
    → Some (λ (p : Text). pattern ≡ p) (patterns_of policy git_hosts)
      ↔ Means policy git_hosts pattern
unfolding patterns_of
patterns_of-Means policy git_hosts pattern = (to, back)
  where
    listed_part :
        Some
          (λ (p : Text). pattern ≡ p)
          (elim policy.mode [ network_allowlist ↦ policy.allow | _ ↦ [] ])
        ↔ Listed policy.mode policy.allow pattern
    listed_part = among_iff policy.mode policy.allow pattern

    halves :
        Some
          (λ (p : Text). pattern ≡ p)
          (git_hosts ++ elim policy.mode [ network_allowlist ↦ policy.allow | _ ↦ [] ])
        ↔ (Some (λ (p : Text). pattern ≡ p) git_hosts
            ⊎ Some
                (λ (p : Text). pattern ≡ p)
                (elim policy.mode [ network_allowlist ↦ policy.allow | _ ↦ [] ]))
    halves = Some-append (λ (p : Text). pattern ≡ p) git_hosts _

    to :
        Some (λ (p : Text). pattern ≡ p) (patterns_of policy git_hosts)
        → Means policy git_hosts pattern
    to (inl e) = model e
    to (inr (inl e)) = login e
    to (inr (inr s)) = elim (halves.0 s) [
      | inl t ↦ repository t
      | inr t ↦ let (mode, there) = listed_part.0 t in listed mode there
    ]

    back :
        Means policy git_hosts pattern
        → Some (λ (p : Text). pattern ≡ p) (patterns_of policy git_hosts)
    back (model e) = inl e
    back (login e) = inr (inl e)
    back (repository t) = inr (inr (halves.1 (inl t)))
    back (listed mode t) = inr (inr (halves.1 (inr (listed_part.1 (mode, t)))))
