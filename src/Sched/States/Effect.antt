-- ===== src/Sched/States/Effect.antt =====
-- What one round of `transition` in internal/kernel/sched/states.go does to the database.
use lexicode.Prelude.{◌≡◌, true, false, Bool-cases, Result-cases, inl, inr, [], ◌∷◌, err, arith}
use lexicode.Domain.RunState.{RunState, same_state}
use lexicode.Domain.Words.{Key, Time}
use lexicode.Domain.Rows.{Run}
use lexicode.Store.Db.{Db}
use lexicode.Store.Runs.{RunStateUpdate, by_id, set_state}
use lexicode.Sched.World.{World, SchedError}
use lexicode.Sched.Machine.{transition_legal}
use lexicode.Sched.States.{settled, stamp, land, commit, round, transition}

pub land-db : (w : World) (run : Run) (to : RunState) → (land w run to).0.db ≡ w.db
unfolding land
land-db w run to = ground arith

commit-db :
    (race : Db → Db) (now : Time) (w : World) (run : Run) (id : Key) (to : RunState)
    (u : RunStateUpdate)
    → (commit race now w run id to u).0.db
      ≡ (set_state (race w.db) id (run.state ∷ []) to (stamp now to u)).0
unfolding commit
commit-db race now w run id to u =
    elim (Result-cases (set_state (race w.db) id (run.state ∷ []) to (stamp now to u)).1) [
      | inl (true, e) ↦ rw (e, commit) (land-db _ run to)
      | inl (false, e) ↦ rw (e, commit)
      | inr (x, e) ↦ rw (e, commit)
    ]

-- A property of the database holds after a round if it held before, and if the guarded UPDATE, made
-- after the race along a legal transition, brings it about.
pub round-db :
    (P : Db → Type 0) (race : Db → Db) (now : Time) (w : World) (id : Key) (to : RunState)
    (u : RunStateUpdate)
    → P w.db
    → ((r : Run)
        → transition_legal r.state to ≡ true
        → P (set_state (race w.db) id (r.state ∷ []) to (stamp now to u)).0)
    → P (round race now w id to u).0.db
unfolding round
round-db P race now w id to u idle wrote = elim (Result-cases (by_id w.db id)) [
  | inr (x, e) ↦ rw (e, round) idle
  | inl (r, e) ↦
      rw (e, round)
        (elim (Bool-cases (same_state r.state to)) [
          | inl there ↦ rw there idle
          | inr away ↦ rw away (elim (Bool-cases (transition_legal r.state to)) [
            | inl legal ↦ rw legal (rw (commit-db race now w r id to u) (wrote r legal))
            | inr refused ↦ rw refused idle
          ])
        ])
]

commit-err :
    (race : Db → Db) (now : Time) (w : World) (run : Run) (id : Key) (to : RunState)
    (u : RunStateUpdate) {x : SchedError}
    → (commit race now w run id to u).1 ≡ settled (err x)
    → (commit race now w run id to u).0.db ≡ race w.db
unfolding commit set_state land
commit-err race now w run id to u h = ground arith

round-err :
    (now : Time) (w : World) (id : Key) (to : RunState) (u : RunStateUpdate) {x : SchedError}
    → (round (λ db. db) now w id to u).1 ≡ settled (err x)
    → (round (λ db. db) now w id to u).0.db ≡ w.db
unfolding round
round-err now w id to u {x} h = elim (Result-cases (by_id w.db id)) [
  | inr (y, e) ↦ rw (e, round)
  | inl (r, e) ↦
      ground (arith, e, rw (e, round) at h, commit-err (λ db. db) now w r id to u {x = x})
]

-- A transition that is refused or fails, with no other writer about, leaves the database as it was.
pub transition-err :
    (now : Time) (w : World) (id : Key) (to : RunState) (u : RunStateUpdate) {x : SchedError}
    → (transition [] now w id to u).1 ≡ settled (err x)
    → (transition [] now w id to u).0.db ≡ w.db
unfolding transition
transition-err now w id to u h = round-err now w id to u h
