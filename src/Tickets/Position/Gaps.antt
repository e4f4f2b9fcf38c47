-- ===== src/Tickets/Position/Gaps.antt =====
-- Where the cards around a slot stand once the slot is filled.
use lexicode.Prelude.{
  ℕ, suc, ◌≤◌, ◌<◌, true, ◌&&◌, ◌||◌, List, [], ◌∷◌, ◌++◌, ◌==◌, ==_iff, ◌≡◌, ◌≢◌, refl, inl, inr,
  arith, Bool-cases, sym, subst, map, ltb,
}
use lexicode.Prelude.Lists.{All}
use lexicode.Domain.Rows.{Ticket}
use lexicode.Tickets.Position.{Floats, last_of, first_of, position_between, renumber, place_in}
use lexicode.Tickets.Position.Numbered.{
  position_after, Others, Distinct, Ascends, Between, All-map, Numbered-Between, renumber-Numbered,
  put_at, put_at-other,
}

map-eq :
    (g h : Ticket → ℕ) (ts : List Ticket) → All (λ (t : Ticket). h t ≡ g t) ts → map h ts ≡ map g ts
map-eq g h [] e = refl
map-eq g h (t ∷ ts) e = rw (e.0, map-eq g h ts e.1) refl

All-eq :
    (R : ℕ → Type 0) (g h : Ticket → ℕ) (ts : List Ticket)
    → All (λ (t : Ticket). h t ≡ g t) ts
    → All (λ (t : Ticket). R (g t)) ts
    → All (λ (t : Ticket). R (h t)) ts
All-eq R g h [] e k = tt
All-eq R g h (t ∷ ts) e k = (subst R (sym e.0) k.0, All-eq R g h ts e.1 k.1)

Between-eq :
    (g h : Ticket → ℕ) (p : ℕ) (front back : List Ticket)
    → All (λ (t : Ticket). h t ≡ g t) front
    → All (λ (t : Ticket). h t ≡ g t) back
    → Between g p front back
    → Between h p front back
Between-eq g h p front back same_front same_back k = record {
  below = All-eq (λ (q : ℕ). q < p) g h front same_front k.below;
  above = All-eq (λ (q : ℕ). p < q) g h back same_back k.above;
  front_kept = rw (map-eq g h front same_front) k.front_kept;
  back_kept = rw (map-eq g h back same_back) k.back_kept;
}

Distinct-Others :
    (front back : List Ticket) (m : Ticket)
    → Distinct (front ++ m ∷ back)
    → Others m.id front × Others m.id back
Distinct-Others [] back m d = (tt, d.0)
Distinct-Others (t ∷ front) back m d =
    let (others_front, others_back) = Distinct-Others front back m d.1 in
    ((λ same. member front d.0 (sym same), others_front), others_back)
  where
    member : (ts : List Ticket) → Others t.id (ts ++ m ∷ back) → m.id ≢ t.id
    member [] h = h.0
    member (u ∷ ts) h = member ts h.1

below_last :
    (p : ℕ) (front : List Ticket)
    → Ascends (map (λ (t : Ticket). t.position) front)
    → last_of front < p
    → All (λ (t : Ticket). t.position < p) front
unfolding last_of
below_last p [] up lt = tt
below_last p (t ∷ []) up lt = (lt, tt)
below_last p (t ∷ u ∷ ts) up lt =
    let rest = below_last p (u ∷ ts) up.1 lt in (omega (arith, up.0.0, rest.0), rest)

above_first :
    (p : ℕ) (back : List Ticket)
    → Ascends (map (λ (t : Ticket). t.position) back)
    → All (λ (t : Ticket). 0 < t.position) back
    → (first_of back == 0 || ltb p (first_of back)) ≡ true
    → All (λ (t : Ticket). p < t.position) back
above_first p [] up pos e = tt
above_first p (t ∷ ts) up pos e =
    let lt : p < t.position = ground (arith, pos.0) in
    (
      lt,
      All-map (λ (u : Ticket). t.position ≤ u.position) (λ (u : Ticket). p < u.position)
          (λ u le. omega (arith, lt, le)) ts (reached ts up.0),
    )
  where
    reached :
        (us : List Ticket)
        → All (λ (q : ℕ). t.position ≤ q) (map (λ (u : Ticket). u.position) us)
        → All (λ (u : Ticket). t.position ≤ u.position) us
    reached [] h = tt
    reached (u ∷ us) h = (h.0, reached us h.1)

-- Between cards in the order of their positions, the mover is put above the last one before its slot and
-- below the first one after it, and no two other cards change places: whatever float64 arithmetic
-- answers, if the multiples of the gap rise.
pub place_in-Between :
    (f : Floats)
    → ((n : ℕ) → f.slot n < f.slot (suc n))
    → (mover : Ticket) (front back : List Ticket) → Distinct (front ++ mover ∷ back)
    → Ascends (map (λ (t : Ticket). t.position) front)
    → Ascends (map (λ (t : Ticket). t.position) back)
    → All (λ (t : Ticket). 0 < t.position) back
    → Between
        (position_after (place_in f mover (front, back)).writes)
        (place_in f mover (front, back)).position
        front
        back
unfolding place_in
place_in-Between f rises mover front back distinct up_front up_back positive =
    let lo = last_of front in
    let hi = first_of back in
    let pos = position_between f lo hi in
    elim (Bool-cases (ltb lo pos && (hi == 0 || ltb pos hi))) [
      | inl e ↦ rw e (record {
        below = below_last pos front up_front (ground arith);
        above = above_first pos back up_back positive (ground arith);
        front_kept = up_front;
        back_kept = up_back;
      })
      | inr e ↦
          let pl = renumber f mover.id 1 0 (front ++ mover ∷ back) in
          let g = put_at f mover.id pl in
          let (others_front, others_back) = Distinct-Others front back mover distinct in
          let here : g mover ≡ pl.position = rw ((==_iff mover.id mover.id).1 refl) in
          let plain =
            All-map (λ (t : Ticket). t.id ≢ mover.id)
              (λ (t : Ticket). position_after pl.writes t ≡ g t)
              (λ t other. put_at-other f mover.id pl t other) in
          rw e (
            Between-eq g (position_after pl.writes) pl.position front back
              (plain front others_front) (plain back others_back)
              (Numbered-Between f mover.id rises g pl.position 1 front back mover here
                (renumber-Numbered f mover.id 1 0 (front ++ mover ∷ back) distinct)).1)
    ]
