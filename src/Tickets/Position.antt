-- ===== src/Tickets/Position.antt =====
-- internal/domain/position.go, and `placeTicket` of internal/service/tickets/move.go. The arithmetic of the
-- processor on float64 is an argument.
pub mod Numbered
pub mod Gaps
pub mod Placed
use lexicode.Prelude.{
  ℕ, zero, suc, ◌+◌, ◌-◌, Bool, true, false, not, ◌&&◌, ◌||◌, List, [], ◌∷◌, ◌++◌, Option, none,
  some, Result, ok, err, ◌==◌, ltb, if◌then◌else◌,
}
use lexicode.Domain.Words.{Key}
use lexicode.Domain.Rows.{Ticket}

-- The operations of position.go, and the multiples of the gap, `slot n` for `float64(n) * PositionGap`.
pub record Floats : Type 0 where
  pub gap : ℕ
  pub add_gap : ℕ → ℕ
  pub half : ℕ → ℕ
  pub midpoint : ℕ → ℕ → ℕ
  pub slot : ℕ → ℕ

-- `OptStr`: absent, null, or a value.
pub data OptStr : Type 0 where
  absent null : OptStr
  value : Key → OptStr

-- `MoveInput`, whose explicit position is 0 for one that is not positive.
pub record MoveInput : Type 0 where
  pub column_id : Key
  pub position : Option ℕ
  pub after_id : OptStr

pub data PlaceError : Type 0 where
  not_positive after_itself no_such_neighbour : PlaceError

-- The cards before the slot of the mover, and those from it on.
abbrev pub Gap : Type 0
Gap = List Ticket × List Ticket

-- The search for the neighbour: the slot follows it.
unfoldable pub split_after : Key → List Ticket → Option Gap
split_after id [] = none
split_after id (t ∷ ts) =
    let rest = split_after id ts in
    if t.id == id
    then some (t ∷ [], ts)
    else elim rest [ none ↦ none | some (front, back) ↦ some (t ∷ front, back) ]

unfoldable pub gap_of : (mover : Key) → OptStr → (rest : List Ticket) → Result PlaceError Gap
unfolding split_after
gap_of mover absent rest = ok (rest, [])
gap_of mover null rest = ok ([], rest)
gap_of mover (value id) rest =
    if id == mover
    then err after_itself
    else elim (split_after id rest) [ none ↦ err no_such_neighbour | some gap ↦ ok gap ]

-- The position of the last card, and of the first; 0 if there is none.
unfoldable pub last_of : List Ticket → ℕ
last_of [] = 0
last_of (t ∷ []) = t.position
last_of (t ∷ u ∷ ts) = last_of (u ∷ ts)

abbrev pub first_of : List Ticket → ℕ
first_of [] = 0
first_of (t ∷ ts) = t.position

-- A SetPosition for a card.
pub record Write : Type 0 where
  pub id : Key
  pub position : ℕ

-- Where the mover goes, and the other cards that are moved for it.
pub record Placement : Type 0 where
  pub position : ℕ
  pub writes : List Write

module _ (f : Floats) where
  -- `PositionBetween`
  unfoldable pub position_between : (before after : ℕ) → ℕ
  position_between zero zero = f.gap
  position_between (suc b) zero = f.add_gap (suc b)
  position_between zero (suc a) = f.half (suc a)
  position_between (suc b) (suc a) = f.midpoint (suc b) (suc a)

  -- The loop that numbers the whole column, from a slot on; `out` is the slot of the mover.
  unfoldable pub renumber : (mover : Key) (n out : ℕ) → List Ticket → Placement
  renumber mover n out [] = record { position = out; writes = [] }
  renumber mover n out (t ∷ ts) =
      let p = f.slot n in
      let at = renumber mover (suc n) (if t.id == mover then p else out) ts in
      if t.id == mover
      then at
      else record at { writes = record { id = t.id; position = p } ∷ at.writes }

  -- The position between the neighbours, or a new numbering where there is none.
  unfoldable pub place_in : Ticket → Gap → Placement
  unfolding position_between last_of renumber
  place_in mover (front, back) =
      let lo = last_of front in
      let hi = first_of back in
      let pos = position_between lo hi in
      if ltb lo pos && (hi == 0 || ltb pos hi)
      then record { position = pos; writes = [] }
      else renumber mover.id 1 0 (front ++ mover ∷ back)

  -- `placeTicket`, for the other cards of the destination in their order.
  unfoldable pub place_ticket : Ticket → List Ticket → MoveInput → Result PlaceError Placement
  unfolding gap_of place_in
  place_ticket mover rest move = elim move.position [
    | some zero ↦ err not_positive
    | some (suc p) ↦ ok (record { position = suc p; writes = [] })
    | none ↦ elim (gap_of mover.id move.after_id rest) [
      | err e ↦ err e
      | ok gap ↦ ok (place_in mover gap)
    ]
  ]
