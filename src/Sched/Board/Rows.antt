-- ===== src/Sched/Board/Rows.antt =====
-- What the writes to the runs table are on the board.
use lexicode.Prelude.{sym, subst, List, [], ◌∷◌, ◌++◌}
use lexicode.Prelude.Lists.Rows.{Rowwise}
use lexicode.Domain.RunState.{RunState}
use lexicode.Domain.Words.{Key}
use lexicode.Domain.Rows.{Run}
use lexicode.Sched.Machine.{◌⟶*◌, here, next}
use lexicode.Sched.States.Advance.{Advances}
use lexicode.Sched.Board.{Board, entry, board, IsBirth, move, born, later, ◌⇒*◌, stays, steps}

pub ⇒*-trans : {b c d : Board} → b ⇒* c → c ⇒* d → b ⇒* d
⇒*-trans p stays = p
⇒*-trans p (steps q e) = steps (⇒*-trans p q) e

later_all : (e : Key × RunState) {b c : Board} → b ⇒* c → (e ∷ b) ⇒* (e ∷ c)
later_all e stays = stays
later_all e (steps p s) = steps (later_all e p) (later e s)

move_along : (id : Key) (b : Board) {s t : RunState} → s ⟶* t → ((id, s) ∷ b) ⇒* ((id, t) ∷ b)
move_along id b here = stays
move_along id b (next p e) = steps (move_along id b p) (move id b e)

-- Rows that advance are moves.
pub Rowwise-⇒* : (rs ss : List Run) → Rowwise Advances rs ss → board rs ⇒* board ss
Rowwise-⇒* [] [] h = stays
Rowwise-⇒* (r ∷ rs) (s ∷ ss) h = ⇒*-trans (later_all (entry r) (Rowwise-⇒* rs ss h.1)) (
    subst (λ (id : Key). ((r.id, r.state) ∷ board ss) ⇒* ((id, s.state) ∷ board ss)) (sym h.0.0)
      (move_along r.id (board ss) h.0.1))
Rowwise-⇒* [] (s ∷ ss) h = absurd h
Rowwise-⇒* (r ∷ rs) [] h = absurd h

-- A new row in a state of birth is a birth.
pub append-⇒* : (rs : List Run) (r : Run) → IsBirth r.state → board rs ⇒* board (rs ++ r ∷ [])
append-⇒* [] r b = steps stays (born r.id b)
append-⇒* (s ∷ rs) r b = later_all (entry s) (append-⇒* rs r b)
