-- ===== src/Sched/States/Advance.antt =====
-- How `transition` of internal/kernel/sched/states.go changes the runs table.
use lexicode.Prelude.{◌≡◌, refl, ◌∙◌, true, Bool-cases, inl, inr, List, [], ◌∷◌, All, arith}
use lexicode.Prelude.Lists.Rows.{Rowwise, Rowwise-refl, Rowwise-trans, update_where-Rowwise}
use lexicode.Domain.RunState.{RunState, same_state_iff}
use lexicode.Domain.Words.{Key, Time}
use lexicode.Domain.Rows.{Run}
use lexicode.Store.Db.{Db, Query}
use lexicode.Store.Runs.{RunStateUpdate, apply_update, may_set, set_state}
use lexicode.Sched.World.{World}
use lexicode.Sched.Machine.{transition_legal, transition_legal_iff-⟶, ◌⟶*◌, here, next, ⟶*-trans}
use lexicode.Sched.States.Effect.{round-db}
use lexicode.Sched.States.{Round, settled, lost, stamp, round, transition}

-- A row keeps its key, and its state moves along a path of legal transitions.
abbrev pub Advances : Run → Run → Type 0
Advances r s = (s.id ≡ r.id) × (r.state ⟶* s.state)

Advances-refl : (r : Run) → Advances r r
Advances-refl r = (refl, here)

Advances-trans : (r s t : Run) → Advances r s → Advances s t → Advances r t
Advances-trans r s t h k = (k.0 ∙ h.0, ⟶*-trans h.1 k.1)

-- A table of runs after any number of legal transitions.
abbrev pub Evolves : Db → Db → Type 0
Evolves d e = Rowwise Advances d.runs e.runs

pub Evolves-refl : (d : Db) → Evolves d d
Evolves-refl d = Rowwise-refl Advances Advances-refl d.runs

pub Evolves-trans : (d e f : Db) → Evolves d e → Evolves e f → Evolves d f
Evolves-trans d e f = Rowwise-trans Advances Advances-trans d.runs e.runs f.runs

may_set-state :
    (id : Key) (from : RunState) (x : Run) → may_set id (from ∷ []) x ≡ true → x.state ≡ from
unfolding may_set
may_set-state id from x h = ground (arith, (same_state_iff x.state from).0)

hit-Advances :
    (id : Key) (from to : RunState) (u : RunStateUpdate)
    → transition_legal from to ≡ true
    → (x : Run) → may_set id (from ∷ []) x ≡ true
    → Advances x (apply_update to u x)
unfolding apply_update
hit-Advances id from to u legal x h =
    (refl, next here (rw (may_set-state id from x h) ((transition_legal_iff-⟶ from to).0 legal)))

set_state-Evolves :
    (db : Db) (id : Key) (from to : RunState) (u : RunStateUpdate)
    → transition_legal from to ≡ true
    → Evolves db (set_state db id (from ∷ []) to u).0
unfolding set_state
set_state-Evolves db id from to u legal = elim (Bool-cases (db.outage (Query.set_state id))) [
  | inl e ↦ rw (e, set_state) (Evolves-refl db)
  | inr e ↦
      rw (e, set_state)
        (update_where-Rowwise Advances _ _ (hit-Advances id from to u legal) Advances-refl db.runs)
]

round-Evolves :
    (race : Db → Db) (now : Time) (w : World) (id : Key) (to : RunState) (u : RunStateUpdate)
    → Evolves w.db (race w.db)
    → Evolves w.db (round race now w id to u).0.db
round-Evolves race now w id to u before =
    round-db (Evolves w.db) race now w id to u (Evolves-refl w.db) λ r legal.
      Evolves-trans w.db (race w.db) (set_state (race w.db) id (r.state ∷ []) to (stamp now to u)).0
        before (set_state-Evolves (race w.db) id r.state to (stamp now to u) legal)

-- Whatever legal transitions other writers make meanwhile, a transition takes every row of the table
-- along a path of legal transitions, and makes and loses no row.
pub transition-Evolves :
    (races : List (Db → Db)) (now : Time) (w : World) (id : Key) (to : RunState)
    (u : RunStateUpdate)
    → All (λ (race : Db → Db). (d : Db) → Evolves d (race d)) races
    → Evolves w.db (transition races now w id to u).0.db
unfolding transition
transition-Evolves [] now w id to u h = round-Evolves (λ db. db) now w id to u (Evolves-refl w.db)
transition-Evolves (race ∷ races) now w id to u h =
    go (round race now w id to u).1 refl (transition-Evolves races now w' id to u h.1)
  where
    w' : World
    w' = (round race now w id to u).0

    first : Evolves w.db w'.db
    first = round-Evolves race now w id to u (h.0 w.db)

    go :
        (r : Round)
        → (round race now w id to u).1 ≡ r
        → Evolves w'.db (transition races now w' id to u).0.db
        → Evolves w.db (transition (race ∷ races) now w id to u).0.db
    go (settled res) e later = rw (e, transition) first
    go lost e later =
        rw (e, transition)
          (Evolves-trans w.db w'.db (transition races now w' id to u).0.db first later)
