-- ===== src/Mentions/Tokens.antt =====
-- The pattern of internal/service/mentionparse/mentionparse.go and the wire format are inverse.
use lexicode.Prelude.{
  ℕ, ◌≡◌, refl, ◌∙◌, sym, ap, subst, ◌≢◌, ◌↔◌, Bool, true, false, [], ◌∷◌, ◌++◌, Option, some, ◌==◌,
  All, Bool-cases, Option-cases, inl, inr, arith, ==_iff,
}
use mathlib.Core.List.{append_assoc}
use lexicode.Domain.Payload.{Text, codes}
use lexicode.Mentions.{
  Kind, user, agent, wiki, ticket, kind_text, Mention, is_label, is_id, span, after_prefix, kind_at,
  not_empty, run_of, id_at, target_at, mention_at, token,
}

pub after_prefix-some : (p s : Text) {rest : Text} → after_prefix p s ≡ some rest → s ≡ p ++ rest
unfolding after_prefix
after_prefix-some [] s h = ground arith
after_prefix-some (c ∷ cs) [] h = absurd (cc)
after_prefix-some (c ∷ cs) (d ∷ s) {rest} h = elim (Bool-cases (c == d)) [
  | inl e ↦
      let tail : s ≡ cs ++ rest = after_prefix-some cs s (rw e at h) in
      let head : c ≡ d = (==_iff c d).0 e in cc
  | inr e ↦ absurd (cc (rw e at h))
]

pub after_prefix-append : (p s : Text) → after_prefix p (p ++ s) ≡ some s
unfolding after_prefix
after_prefix-append [] s = refl
after_prefix-append (c ∷ cs) s = rw ((==_iff c c).1 refl) (after_prefix-append cs s)

-- A run is followed by nothing, or by a character that is none of it.
abbrev Ends : (ℕ → Bool) → Text → Type 0
Ends p [] = Unit
Ends p (c ∷ cs) = p c ≡ false

-- The characters are all of this sort, and there are some.
abbrev pub IsRun : (ℕ → Bool) → Text → Type 0
IsRun p s = (s ≢ []) × All (λ (d : ℕ). p d ≡ true) s

span-append :
    (p : ℕ → Bool) (run rest : Text)
    → All (λ (d : ℕ). p d ≡ true) run
    → Ends p rest
    → span p (run ++ rest) ≡ (run, rest)
unfolding span
span-append p [] [] all ends = refl
span-append p [] (c ∷ cs) all ends = rw ends refl
span-append p (c ∷ cs) rest all ends = rw (all.0, span-append p cs rest all.1 ends) refl

span-All :
    (p : ℕ → Bool) (s : Text)
    → All (λ (d : ℕ). p d ≡ true) (span p s).0 × (s ≡ (span p s).0 ++ (span p s).1)
unfolding span
span-All p [] = (tt, refl)
span-All p (c ∷ cs) = elim (Bool-cases (p c)) [
  | inl e ↦
      let (all, same) = span-All p cs in rw (e, span) ((e, all), ap (λ (t : Text). c ∷ t) same)
  | inr e ↦ rw (e, span) (tt, refl)
]

run_of-append :
    (p : ℕ → Bool) (run rest : Text)
    → IsRun p run
    → Ends p rest
    → run_of p (run ++ rest) ≡ some (run, rest)
unfolding run_of
run_of-append p [] rest (some_there, all) ends = absurd (some_there refl)
run_of-append p (c ∷ cs) rest (some_there, all) ends =
    rw (span-append p (c ∷ cs) rest all ends) (unfold not_empty in refl)

not_empty-some :
    (t : Text × Text) {run rest : Text}
    → not_empty t ≡ some (run, rest)
    → (t.0 ≡ run) × (t.1 ≡ rest) × (run ≢ [])
unfolding not_empty
not_empty-some ([], r) h = absurd (cc)
not_empty-some (c ∷ cs, r) {run} {rest} h =
    let same : (◌≡◌ {A = Text} (c ∷ cs) run) × (r ≡ rest) = ground (arith, h) in
    (same.0, same.1, λ e. cc (same.0, e))

run_of-some :
    (p : ℕ → Bool) (s : Text) {run rest : Text}
    → run_of p s ≡ some (run, rest)
    → IsRun p run × (s ≡ run ++ rest)
unfolding run_of
run_of-some p s {run} {rest} h =
    let (same, after, some_there) = not_empty-some (span p s) h in
    let (all, whole) = span-All p s in
    (
      (some_there, subst (λ (t : Text). All (λ (d : ℕ). p d ≡ true) t) same all),
      whole ∙ ap (λ (t : Text). t ++ (span p s).1) same ∙ ap (λ (t : Text). run ++ t) after,
    )

-- The label and the id of a mention are runs of their characters.
pub record IsToken (m : Mention) : Type 0 where
  pub label : IsRun is_label m.label
  pub id : IsRun is_id m.id

abbrev some_kind : Kind → Text → Option (Kind × Text)
some_kind k rest = some (k, rest)

kind_at-append : (k : Kind) (rest : Text) → kind_at (kind_text k ++ rest) ≡ some (k, rest)
unfolding kind_at
kind_at-append user rest = refl
kind_at-append agent rest = refl
kind_at-append wiki rest = refl
kind_at-append ticket rest = refl

kind_at-some :
    (s : Text) {k : Kind} {rest : Text} → kind_at s ≡ some (k, rest) → s ≡ kind_text k ++ rest
unfolding kind_at
kind_at-some s {k} {rest} h = elim (Option-cases (after_prefix (kind_text user) s)) [
  | inr (r, e) ↦ named (rw (e, kind_at) at h) (after_prefix-some (kind_text user) s e)
  | inl e ↦ elim (Option-cases (after_prefix (kind_text agent) s)) [
    | inr (r, f) ↦ named (rw f at (rw (e, kind_at) at h)) (after_prefix-some (kind_text agent) s f)
    | inl f ↦ elim (Option-cases (after_prefix (kind_text wiki) s)) [
      | inr (r, g) ↦
          named (rw (f, g) at (rw (e, kind_at) at h)) (after_prefix-some (kind_text wiki) s g)
      | inl g ↦ elim (Option-cases (after_prefix (kind_text ticket) s)) [
        | inr (r, i) ↦
            named (rw (f, g, i) at (rw (e, kind_at) at h))
              (after_prefix-some (kind_text ticket) s i)
        | inl i ↦ absurd (cc (rw (f, g, i) at (rw (e, kind_at) at h)))
      ]
    ]
  ]
]
  where
    named :
        {j : Kind} {r : Text}
        → some_kind j r ≡ some_kind k rest
        → s ≡ kind_text j ++ r
        → s ≡ kind_text k ++ rest
    named {j} {r} same whole =
        let parts : (j ≡ k) × (r ≡ rest) = ground (arith, same) in
        whole
        ∙ ap (λ (x : Kind). kind_text x ++ r) parts.0
        ∙ ap (λ (t : Text). kind_text k ++ t) parts.1

-- What follows the label of a mention.
tail_of : Mention → Text → Text
tail_of m rest = codes "](" ++ (kind_text m.kind ++ (m.id ++ (codes ")" ++ rest)))

id_at-some :
    (label : Text) (kind : Kind) (s : Text) {m : Mention} {rest : Text}
    → id_at label (kind, s) ≡ some (m, rest)
    → (m.label ≡ label) × (m.kind ≡ kind) × IsRun is_id m.id × (s ≡ m.id ++ (codes ")" ++ rest))
unfolding id_at
id_at-some label kind s {m} {rest} h = elim (Option-cases (run_of is_id s)) [
  | inl e ↦ absurd (cc (rw (e, id_at) at h))
  | inr ((id, r), e) ↦ elim (Option-cases (after_prefix (codes ")") r)) [
    | inl f ↦ absurd (cc (rw f at (rw (e, id_at) at h)))
    | inr (after, f) ↦
        let (run, whole) = run_of-some is_id s e in
        let same : (m ≡ record { label = label; kind = kind; id = id }) × (after ≡ rest) =
          ground (arith, rw f at (rw (e, id_at) at h)) in
        let of_id : id ≡ m.id = sym (ap (λ (x : Mention). x.id) same.0) in
        (
          ap (λ (x : Mention). x.label) same.0,
          ap (λ (x : Mention). x.kind) same.0,
          subst (λ (t : Text). IsRun is_id t) of_id run,
          whole
              ∙ ap (λ (t : Text). id ++ t)
                  (after_prefix-some (codes ")") r f ∙ ap (λ (t : Text). codes ")" ++ t) same.1)
              ∙ ap (λ (t : Text). t ++ (codes ")" ++ rest)) of_id,
        )
  ]
]

target_at-some :
    (label s : Text) {m : Mention} {rest : Text}
    → target_at (label, s) ≡ some (m, rest)
    → (m.label ≡ label) × IsRun is_id m.id × (s ≡ tail_of m rest)
unfolding target_at tail_of
target_at-some label s {m} {rest} h = elim (Option-cases (after_prefix (codes "](") s)) [
  | inl e ↦ absurd (cc (rw (e, target_at) at h))
  | inr (s', e) ↦ elim (Option-cases (kind_at s')) [
    | inl f ↦ absurd (cc (rw f at (rw (e, target_at) at h)))
    | inr ((kind, t), f) ↦
        let (of_label, of_kind, run, whole) =
          id_at-some label kind t (rw f at (rw (e, target_at) at h)) in
        (
          of_label,
          run,
          after_prefix-some (codes "](") s e
              ∙ ap (λ (x : Text). codes "](" ++ x)
                  (kind_at-some s' f
                    ∙ ap (λ (k : Kind). kind_text k ++ t) (sym of_kind)
                    ∙ ap (λ (x : Text). kind_text m.kind ++ x) whole),
        )
  ]
]

token-tail_of :
    (m : Mention) (rest : Text) → token m ++ rest ≡ codes "@[" ++ (m.label ++ tail_of m rest)
unfolding token tail_of
token-tail_of m rest = simp append_assoc

-- What the pattern matches is the wire format of the mention that it reads, and nothing else: the label and
-- the id are runs of their characters, and the text goes on after the token.
pub mention_at-token :
    (s : Text) {m : Mention} {rest : Text}
    → mention_at s ≡ some (m, rest)
    → IsToken m × (s ≡ token m ++ rest)
unfolding mention_at
mention_at-token s {m} {rest} h = elim (Option-cases (after_prefix (codes "@[") s)) [
  | inl e ↦ absurd (cc (rw (e, mention_at) at h))
  | inr (s', e) ↦ elim (Option-cases (run_of is_label s')) [
    | inl f ↦ absurd (cc (rw f at (rw (e, mention_at) at h)))
    | inr ((label, t), f) ↦
        let (run, whole) = run_of-some is_label s' f in
        let (of_label, id, tail) = target_at-some label t (rw f at (rw (e, mention_at) at h)) in
        (
          record { label = subst (λ (x : Text). IsRun is_label x) (sym of_label) run; id = id },
          after_prefix-some (codes "@[") s e
              ∙ ap (λ (x : Text). codes "@[" ++ x)
                  (whole
                    ∙ ap (λ (x : Text). x ++ t) (sym of_label)
                    ∙ ap (λ (x : Text). m.label ++ x) tail)
              ∙ sym (token-tail_of m rest),
        )
  ]
]

id_at-step :
    (label : Text) (kind : Kind) (s : Text) {id r after : Text}
    → run_of is_id s ≡ some (id, r)
    → after_prefix (codes ")") r ≡ some after
    → id_at label (kind, s) ≡ some (record { label = label; kind = kind; id = id }, after)
unfolding id_at
id_at-step label kind s e f = rw (e, id_at) (rw f refl)

target_at-step :
    (label s : Text) {s' : Text} {k : Kind × Text}
    → after_prefix (codes "](") s ≡ some s'
    → kind_at s' ≡ some k
    → target_at (label, s) ≡ id_at label k
unfolding target_at
target_at-step label s e f = rw (e, target_at) (rw f refl)

mention_at-step :
    (s : Text) {s' : Text} {l : Text × Text}
    → after_prefix (codes "@[") s ≡ some s'
    → run_of is_label s' ≡ some l
    → mention_at s ≡ target_at l
unfolding mention_at
mention_at-step s e f = rw (e, mention_at) (rw f refl)

tail_of-target :
    (m : Mention) (rest : Text)
    → IsRun is_id m.id
    → target_at (m.label, tail_of m rest) ≡ some (m, rest)
unfolding tail_of
tail_of-target m rest run =
    target_at-step m.label (tail_of m rest) (after_prefix-append (codes "](") _)
      (kind_at-append m.kind _)
    ∙ id_at-step m.label m.kind _ (run_of-append is_id m.id (codes ")" ++ rest) run refl)
        (after_prefix-append (codes ")") rest)

written-read :
    (m : Mention) (rest : Text) → IsToken m → mention_at (token m ++ rest) ≡ some (m, rest)
written-read m rest valid =
    ap mention_at (token-tail_of m rest)
    ∙ mention_at-step (codes "@[" ++ (m.label ++ tail_of m rest))
        (after_prefix-append (codes "@[") _)
        (run_of-append is_label m.label (tail_of m rest) valid.label (unfold tail_of in refl))
    ∙ tail_of-target m rest valid.id

-- The wire format of a mention is read back as that mention, whatever follows it, exactly when its label is
-- not empty and has no `]` and no line break, and its id is not empty and all letters and digits.
pub token-mention_at :
    (m : Mention) (rest : Text) → (mention_at (token m ++ rest) ≡ some (m, rest)) ↔ IsToken m
token-mention_at m rest = (λ h. (mention_at-token (token m ++ rest) h).0, written-read m rest)
