-- ===== src/Tickets/Position/Placed.antt =====
-- Where the cards of a column stand after a placement.
use lexicode.Prelude.{
  ℕ, suc, ◌≤◌, ◌<◌, List, [], ◌∷◌, ◌++◌, none, some, ok, Result-cases, Option-cases, ◌==◌, ==_iff,
  ◌≡◌, refl, inl, inr, arith, Bool-cases, ap, sym, subst, ◌∙◌, map,
}
use mathlib.Core.List.{append-nil}
use lexicode.Prelude.Lists.{All}
use lexicode.Domain.Words.{Key}
use lexicode.Domain.Rows.{Ticket}
use lexicode.Tickets.Position.{
  Floats, Placement, OptStr, absent, null, value, MoveInput, split_after, gap_of, place_in,
  place_ticket,
}
use lexicode.Tickets.Position.Numbered.{position_after, Others, Distinct, Ascends, Between}
use lexicode.Tickets.Position.Gaps.{place_in-Between}

-- The slot of a mover splits the other cards of the column.
split_after-append :
    (id : Key) (ts : List Ticket) {front back : List Ticket}
    → split_after id ts ≡ some (front, back)
    → front ++ back ≡ ts
unfolding split_after
split_after-append id [] h = absurd (cc)
split_after-append id (t ∷ ts) {front} {back} h = elim (Bool-cases (t.id == id)) [
  | inl e ↦
      let same : (t ∷ [] ≡ front) × (ts ≡ back) = ground (arith, rw e at h) in
      rw (← same.0, ← same.1) refl
  | inr e ↦ elim (Option-cases (split_after id ts)) [
    | inl f ↦ absurd (cc (rw (e, f) at h))
    | inr ((xs, ys), f) ↦
        let same : (t ∷ xs ≡ front) × (ys ≡ back) = ground (arith, rw (e, f) at h) in
        rw (← same.0, ← same.1) (ap (λ (us : List Ticket). t ∷ us) (split_after-append id ts f))
  ]
]

gap_of-append :
    (mover : Key) (after : OptStr) (rest : List Ticket) {front back : List Ticket}
    → gap_of mover after rest ≡ ok (front, back)
    → front ++ back ≡ rest
unfolding gap_of
gap_of-append mover absent rest {front} {back} h =
    let same : (rest ≡ front) × ([] ≡ back) = ground (arith, h) in
    rw (← same.0, ← same.1) (append-nil rest)
gap_of-append mover null rest h = ground arith
gap_of-append mover (value id) rest {front} {back} h = elim (Bool-cases (id == mover)) [
  | inl e ↦ absurd (cc (rw (e, gap_of) at h))
  | inr e ↦ elim (Option-cases (split_after id rest)) [
    | inl f ↦ absurd (cc (rw (e, f, gap_of) at h))
    | inr (gap, f) ↦
        let found : split_after id rest ≡ some (front, back) =
          f ∙ ground (arith, rw (e, f, gap_of) at h) in
        split_after-append id rest found
  ]
]

-- The slot that is asked for: at the end, at the top, or right after a card.
pub data InSlot : OptStr → (front back : List Ticket) → Type 0 where
  at_end : {front : List Ticket} → InSlot absent front []
  at_top : {back : List Ticket} → InSlot null [] back
  right_after :
      {id : Key} {back : List Ticket} (before : List Ticket) (card : Ticket)
      → card.id ≡ id
      → InSlot (value id) (before ++ card ∷ []) back

split_after-last :
    (id : Key) (ts : List Ticket) {front back : List Ticket}
    → split_after id ts ≡ some (front, back)
    → (before : List Ticket) × (card : Ticket) × (card.id ≡ id) × (front ≡ before ++ card ∷ [])
unfolding split_after
split_after-last id [] h = absurd (cc)
split_after-last id (t ∷ ts) {front} {back} h = elim (Bool-cases (t.id == id)) [
  | inl e ↦
      let same : (t ∷ [] ≡ front) × (ts ≡ back) = ground (arith, rw e at h) in
      ([], t, (==_iff t.id id).0 e, sym same.0)
  | inr e ↦ elim (Option-cases (split_after id ts)) [
    | inl f ↦ absurd (cc (rw (e, f) at h))
    | inr ((xs, ys), f) ↦
        let same : (t ∷ xs ≡ front) × (ys ≡ back) = ground (arith, rw (e, f) at h) in
        let (before, card, named, last) = split_after-last id ts f in
        (t ∷ before, card, named, sym same.0 ∙ ap (λ (us : List Ticket). t ∷ us) last)
  ]
]

gap_of-InSlot :
    (mover : Key) (after : OptStr) (rest : List Ticket) {front back : List Ticket}
    → gap_of mover after rest ≡ ok (front, back)
    → InSlot after front back
unfolding gap_of
gap_of-InSlot mover absent rest {front} {back} h =
    let same : (rest ≡ front) × ([] ≡ back) = ground (arith, h) in
    subst (λ (l : List Ticket). InSlot absent front l) same.1 at_end
gap_of-InSlot mover null rest {front} {back} h =
    let same : ([] ≡ front) × (rest ≡ back) = ground (arith, h) in
    subst (λ (l : List Ticket). InSlot null l back) same.0 at_top
gap_of-InSlot mover (value id) rest {front} {back} h = elim (Bool-cases (id == mover)) [
  | inl e ↦ absurd (cc (rw (e, gap_of) at h))
  | inr e ↦ elim (Option-cases (split_after id rest)) [
    | inl f ↦ absurd (cc (rw (e, f, gap_of) at h))
    | inr (gap, f) ↦
        let found : split_after id rest ≡ some (front, back) =
          f ∙ ground (arith, rw (e, f, gap_of) at h) in
        let (before, card, named, last) = split_after-last id rest found in
        subst (λ (l : List Ticket). InSlot (value id) l back) (sym last)
          (right_after before card named)
  ]
]

-- Half of a column ascends if the whole does.
Ascends-halves :
    (front back : List Ticket)
    → Ascends (map (λ (t : Ticket). t.position) (front ++ back))
    → Ascends (map (λ (t : Ticket). t.position) front)
      × Ascends (map (λ (t : Ticket). t.position) back)
Ascends-halves [] back up = (tt, up)
Ascends-halves (t ∷ front) back up =
    let (rest, tail) = Ascends-halves front back up.1 in ((firsts front up.0, rest), tail)
  where
    firsts :
        (ts : List Ticket)
        → All (λ (q : ℕ). t.position ≤ q) (map (λ (u : Ticket). u.position) (ts ++ back))
        → All (λ (q : ℕ). t.position ≤ q) (map (λ (u : Ticket). u.position) ts)
    firsts [] h = tt
    firsts (u ∷ ts) h = (h.0, firsts ts h.1)

All-tail : (P : Ticket → Type 0) (front back : List Ticket) → All P (front ++ back) → All P back
All-tail P [] back h = h
All-tail P (t ∷ front) back h = All-tail P front back h.1

-- The mover may stand anywhere among cards of other ids.
Distinct-insert :
    (m : Ticket) (front back : List Ticket)
    → Others m.id (front ++ back)
    → Distinct (front ++ back)
    → Distinct (front ++ m ∷ back)
Distinct-insert m [] back others d = (others, d)
Distinct-insert m (t ∷ front) back others d =
    (insert front d.0, Distinct-insert m front back others.1 d.1)
  where
    insert : (ts : List Ticket) → Others t.id (ts ++ back) → Others t.id (ts ++ m ∷ back)
    insert [] h = ((λ same. others.0 (sym same)), h)
    insert (u ∷ ts) h = (h.0, insert ts h.1)

-- A card that is dropped without an explicit position lands in the slot that was asked for: right
-- after the named card, at the top, or at the end. The cards before the slot stay below it and those after it above,
-- and no two of them change places: whatever float64 arithmetic answers, if the multiples of the gap rise,
-- the positions of the column are positive and in their order, and its ids differ.
pub place_ticket-Between :
    (f : Floats)
    → ((n : ℕ) → f.slot n < f.slot (suc n))
    → (mover : Ticket) (rest : List Ticket) (move : MoveInput) {pl : Placement}
    → Others mover.id rest
    → Distinct rest
    → Ascends (map (λ (t : Ticket). t.position) rest)
    → All (λ (t : Ticket). 0 < t.position) rest
    → move.position ≡ none
    → place_ticket f mover rest move ≡ ok pl
    → (front : List Ticket) × (back : List Ticket) × InSlot move.after_id front back
      × (front ++ back ≡ rest)
      × Between (position_after pl.writes) pl.position front back
unfolding place_ticket
place_ticket-Between f rises mover rest move {pl} others distinct up positive free h =
    elim (Result-cases (gap_of mover.id move.after_id rest)) [
      | inr (e, g) ↦ absurd (cc (rw (g) at (rw (free, place_ticket) at h)))
      | inl ((front, back), g) ↦
          let whole = gap_of-append mover.id move.after_id rest g in
          let placed : place_in f mover (front, back) ≡ pl =
            ground (arith, rw (g) at (rw (free, place_ticket) at h)) in
          let halves = Ascends-halves front back (rw whole up) in
          (
            front,
            back,
            gap_of-InSlot mover.id move.after_id rest g,
            whole,
            subst (λ (x : Placement). Between (position_after x.writes) x.position front back)
                placed
                (place_in-Between f rises mover front back
                  (Distinct-insert mover front back (rw whole others) (rw whole distinct)) halves.0
                  halves.1
                  (All-tail (λ (t : Ticket). 0 < t.position) front back (rw whole positive))),
          )
    ]
