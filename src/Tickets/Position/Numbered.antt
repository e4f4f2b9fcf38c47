-- ===== src/Tickets/Position/Numbered.antt =====
-- Where a new numbering of a column puts its cards.
use lexicode.Prelude.{
  ℕ, suc, ◌≤◌, ◌<◌, List, [], ◌∷◌, ◌++◌, ◌==◌, ==_iff, ◌≡◌, ◌≢◌, refl, inl, inr, if◌then◌else◌,
  arith, Bool-cases, sym, subst, ◌∙◌, map,
}
use lexicode.Prelude.Lists.{All}
use lexicode.Domain.Words.{Key}
use lexicode.Domain.Rows.{Ticket}
use lexicode.Tickets.Position.{Floats, Write, Placement, renumber}

-- The position of a card after some writes.
abbrev pub position_after : List Write → Ticket → ℕ
position_after [] t = t.position
position_after (w ∷ ws) t =
    position_after ws (if w.id == t.id then record t { position = w.position } else t)

abbrev pub Others : Key → List Ticket → Type 0
Others id ts = All (λ (t : Ticket). t.id ≢ id) ts

-- The id is a primary key.
abbrev pub Distinct : List Ticket → Type 0
Distinct [] = Unit
Distinct (t ∷ ts) = Others t.id ts × Distinct ts

-- `ORDER BY position`
abbrev pub Ascends : List ℕ → Type 0
Ascends [] = Unit
Ascends (p ∷ ps) = All (λ (q : ℕ). p ≤ q) ps × Ascends ps

-- A card stands between others, which have kept their order.
pub record Between (g : Ticket → ℕ) (p : ℕ) (front back : List Ticket) : Type 0 where
  pub below : All (λ (t : Ticket). g t < p) front
  pub above : All (λ (t : Ticket). p < g t) back
  pub front_kept : Ascends (map g front)
  pub back_kept : Ascends (map g back)

abbrev pub NotIn : Key → List Write → Type 0
NotIn id ws = All (λ (w : Write). w.id ≢ id) ws

position_after-NotIn :
    (ws : List Write) (t : Ticket) → NotIn t.id ws → position_after ws t ≡ t.position
position_after-NotIn [] t h = refl
position_after-NotIn (w ∷ ws) t h = elim (Bool-cases (w.id == t.id)) [
  | inl e ↦ absurd (h.0 ((==_iff w.id t.id).0 e))
  | inr e ↦ rw e (position_after-NotIn ws t h.1)
]

pub All-map :
    (P Q : Ticket → Type 0) → ((t : Ticket) → P t → Q t) → (ts : List Ticket) → All P ts → All Q ts
All-map P Q g [] h = tt
All-map P Q g (t ∷ ts) h = (g t h.0, All-map P Q g ts h.1)

at_least :
    (g : Ticket → ℕ) (p : ℕ) (ts : List Ticket)
    → All (λ (t : Ticket). p ≤ g t) ts
    → All (λ (q : ℕ). p ≤ q) (map g ts)
at_least g p [] h = tt
at_least g p (t ∷ ts) h = (h.0, at_least g p ts h.1)

first_write :
    (t : Ticket) (p : ℕ) (ws : List Write)
    → position_after ws (record t { position = p }) ≡ p
    → position_after (record { id = t.id; position = p } ∷ ws) t ≡ p
first_write t p ws h = rw ((==_iff t.id t.id).1 refl) h

module _ (f : Floats) (mover : Key) where
  -- The cards stand on the slots from `n` on.
  abbrev pub Numbered : (Ticket → ℕ) → ℕ → List Ticket → Type 0
  Numbered g n [] = Unit
  Numbered g n (t ∷ ts) = (g t ≡ f.slot n) × Numbered g (suc n) ts

  Numbered-map :
      (g h : Ticket → ℕ) (n : ℕ) (ts : List Ticket)
      → All (λ (t : Ticket). h t ≡ g t) ts
      → Numbered g n ts
      → Numbered h n ts
  Numbered-map g h n [] e k = tt
  Numbered-map g h n (t ∷ ts) e k = (e.0 ∙ k.0, Numbered-map g h (suc n) ts e.1 k.1)

  -- Where a numbering puts a card.
  abbrev pub put_at : Placement → Ticket → ℕ
  put_at pl t = if t.id == mover then pl.position else position_after pl.writes t

  pub put_at-other :
      (pl : Placement) (t : Ticket) → t.id ≢ mover → position_after pl.writes t ≡ put_at pl t
  put_at-other pl t other = elim (Bool-cases (t.id == mover)) [
    | inl e ↦ absurd (other ((==_iff t.id mover).0 e))
    | inr e ↦ rw e refl
  ]

  renumber-out :
      (n out : ℕ) (ts : List Ticket) → Others mover ts → (renumber f mover n out ts).position ≡ out
  unfolding renumber
  renumber-out n out [] h = refl
  renumber-out n out (t ∷ ts) h = elim (Bool-cases (t.id == mover)) [
    | inl e ↦ absurd (h.0 ((==_iff t.id mover).0 e))
    | inr e ↦ rw e (renumber-out (suc n) out ts h.1)
  ]

  renumber-NotIn :
      (id : Key) (n out : ℕ) (ts : List Ticket)
      → Others id ts
      → NotIn id (renumber f mover n out ts).writes
  unfolding renumber
  renumber-NotIn id n out [] h = tt
  renumber-NotIn id n out (t ∷ ts) h = elim (Bool-cases (t.id == mover)) [
    | inl e ↦ rw e (renumber-NotIn id (suc n) (f.slot n) ts h.1)
    | inr e ↦ rw e (h.0, renumber-NotIn id (suc n) out ts h.1)
  ]

  -- A write for another card moves nothing.
  unmoved :
      (at : Placement) (w : Write) (u : Ticket)
      → w.id ≢ u.id
      → put_at (record at { writes = w ∷ at.writes }) u ≡ put_at at u
  unmoved at w u other = elim (Bool-cases (w.id == u.id)) [
    | inl e ↦ absurd (other ((==_iff w.id u.id).0 e))
    | inr e ↦ rw e refl
  ]

  pub renumber-Numbered :
      (n out : ℕ) (ts : List Ticket)
      → Distinct ts
      → Numbered (put_at (renumber f mover n out ts)) n ts
  unfolding renumber
  renumber-Numbered n out [] d = tt
  renumber-Numbered n out (t ∷ ts) (others, d) = elim (Bool-cases (t.id == mover)) [
    | inl e ↦
        let at = renumber f mover (suc n) (f.slot n) ts in
        let whole : renumber f mover n out (t ∷ ts) ≡ at = rw e refl in
        let here : put_at at t ≡ f.slot n =
          rw e (renumber-out (suc n) (f.slot n) ts (rw ((==_iff t.id mover).0 e) at others)) in
        subst (λ (pl : Placement). Numbered (put_at pl) n (t ∷ ts)) (sym whole)
          (here, renumber-Numbered (suc n) (f.slot n) ts d)
    | inr e ↦
        let at = renumber f mover (suc n) out ts in
        let w : Write = record { id = t.id; position = f.slot n } in
        let pl : Placement = record at { writes = w ∷ at.writes } in
        let whole : renumber f mover n out (t ∷ ts) ≡ pl = rw e refl in
        let here : put_at pl t ≡ f.slot n = rw e (
          first_write t (f.slot n) at.writes (
            position_after-NotIn at.writes (record t { position = f.slot n })
              (renumber-NotIn t.id (suc n) out ts others))) in
        let far : All (λ (u : Ticket). put_at pl u ≡ put_at at u) ts =
          All-map (λ (u : Ticket). u.id ≢ t.id) (λ (u : Ticket). put_at pl u ≡ put_at at u)
            (λ u other. unmoved at w u (λ same. other (sym same))) ts others in
        subst (λ (x : Placement). Numbered (put_at x) n (t ∷ ts)) (sym whole)
          (
            here,
            Numbered-map (put_at at) (put_at pl) (suc n) ts far
                (renumber-Numbered (suc n) out ts d),
          )
  ]

  module _ (rises : (n : ℕ) → f.slot n < f.slot (suc n)) where
    Numbered-from :
        (g : Ticket → ℕ) (n m : ℕ) (ts : List Ticket)
        → f.slot m ≤ f.slot n
        → Numbered g n ts
        → All (λ (t : Ticket). f.slot m ≤ g t) ts
    Numbered-from g n m [] le k = tt
    Numbered-from g n m (t ∷ ts) le k =
        (omega (arith, k.0, le), Numbered-from g (suc n) m ts (omega (arith, le, rises n)) k.1)

    ascends : (g : Ticket → ℕ) (n : ℕ) (ts : List Ticket) → Numbered g n ts → Ascends (map g ts)
    ascends g n [] k = tt
    ascends g n (t ∷ ts) k =
        let low = rises n in
        (
          rw k.0 (at_least g (f.slot n) ts (Numbered-from g (suc n) n ts (omega (arith, low)) k.1)),
          ascends g (suc n) ts k.1,
        )

    Numbered-front :
        (g : Ticket → ℕ) (n : ℕ) (front rest : List Ticket)
        → Numbered g n (front ++ rest)
        → Numbered g n front
    Numbered-front g n [] rest k = tt
    Numbered-front g n (t ∷ front) rest k = (k.0, Numbered-front g (suc n) front rest k.1)

    -- A numbering of a column has the cards before the mover below it, and those after it above.
    pub Numbered-Between :
        (g : Ticket → ℕ) (p n : ℕ) (front back : List Ticket) (m : Ticket)
        → g m ≡ p
        → Numbered g n (front ++ m ∷ back)
        → (f.slot n ≤ p) × Between g p front back
    Numbered-Between g p n [] back m here k =
        let low = rises n in
        (
          omega (arith, here, k.0),
          record {
            below = tt;
            above =
                All-map (λ (t : Ticket). f.slot (suc n) ≤ g t) (λ (t : Ticket). p < g t)
                  (λ t le. omega (arith, here, k.0, low, le)) back
                  (Numbered-from g (suc n) (suc n) back (omega arith) k.1);
            front_kept = tt;
            back_kept = ascends g (suc n) back k.1;
          },
        )
    Numbered-Between g p n (t ∷ front) back m here k =
        let low = rises n in
        let (le, rest) = Numbered-Between g p (suc n) front back m here k.1 in
        (
          omega (arith, low, le),
          record {
            below = (omega (arith, k.0, low, le), rest.below);
            above = rest.above;
            front_kept = ascends g n (t ∷ front) (Numbered-front g n (t ∷ front) (m ∷ back) k);
            back_kept = rest.back_kept;
          },
        )
