-- ===== src/Sched/Board/Laws.antt =====
-- What every path on the board of runs keeps: a run stays at its place, and moves along the edges of the
-- state machine.
use lexicode.Prelude.{◌≡◌, refl, ◌∷◌, Option, some, ℕ, zero, suc, arith}
use lexicode.Prelude.Lists.{get_elem?}
use lexicode.Domain.RunState.{RunState}
use lexicode.Domain.Words.{Key}
use lexicode.Sched.Machine.{◌⟶◌, ◌⟶*◌, here, next, ⟶*-trans}
use lexicode.Sched.Board.{Board, ◌⇒◌, move, born, later, ◌⇒*◌, stays, steps}

abbrev pub is_at : Key → RunState → Option (Key × RunState)
is_at id s = some (id, s)

-- The run at a place, and a state that it has come to.
abbrev pub Comes : Board → ℕ → Key → RunState → Type 0
Comes c i id s = (t : RunState) × (get_elem? c i ≡ is_at id t) × (s ⟶* t)

moved :
    (k id : Key) (b : Board) {from to s : RunState}
    → from ⟶ to
    → is_at k from ≡ is_at id s
    → Comes ((k, to) ∷ b) zero id s
moved k id b {from} {to} {s} e h =
    let same : (k ≡ id) × (from ≡ s) = ground arith in
    (to, rw same.0 refl, next here (rw same.1 at e))

⇒-Comes :
    {b c : Board} (i : ℕ) (id : Key) (s : RunState)
    → b ⇒ c
    → get_elem? b i ≡ is_at id s
    → Comes c i id s
⇒-Comes zero id s (move k b e) h = moved k id b e h
⇒-Comes (suc i) id s (move k b e) h = (s, h, here)
⇒-Comes i id s (born k birth) h = absurd (cc)
⇒-Comes zero id s (later e p) h = (s, h, here)
⇒-Comes (suc i) id s (later e p) h = ⇒-Comes i id s p h

pub ⇒*-Comes :
    {b c : Board} (i : ℕ) (id : Key) (s : RunState)
    → b ⇒* c
    → get_elem? b i ≡ is_at id s
    → Comes c i id s
⇒*-Comes i id s stays h = (s, h, here)
⇒*-Comes i id s (steps p e) h =
    let (t, at, path) = ⇒*-Comes i id s p h in
    let (u, at', path') = ⇒-Comes i id t e at in (u, at', ⟶*-trans path path')
