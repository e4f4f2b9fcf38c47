-- ===== src/Sched/States/Settles.antt =====
-- `transition` of internal/kernel/sched/states.go returns, and what it answers.
use lexicode.Prelude.{
  ap, ◌≡◌, refl, ◌≢◌, true, false, Result-cases, inl, inr, List, [], ◌∷◌, ok, All, arith,
}
use lexicode.Domain.RunState.{RunState, same_state_iff}
use lexicode.Domain.Words.{Key, Time}
use lexicode.Domain.Rows.{Run}
use lexicode.Store.Db.{Db}
use lexicode.Store.Runs.{RunStateUpdate, by_id, apply_update, set_state}
use lexicode.Store.Runs.Laws.{by_id-ok, set_state-hit, set_state-won, HasKeys, set_state-HasKeys}
use lexicode.Sched.World.{World}
use lexicode.Sched.States.Effect.{round-db}
use lexicode.Sched.States.{Round, settled, lost, stamp, land, commit, round, transition}

commit-settles :
    (now : Time) (w : World) (id : Key) (to : RunState) (u : RunStateUpdate) {r : Run}
    → by_id w.db id ≡ ok r
    → (commit (λ db. db) now w r id to u).1 ≢ lost
unfolding commit
commit-settles now w id to u {r} h = ground (arith, set_state-hit w.db id to (stamp now to u) h)

round-settles :
    (now : Time) (w : World) (id : Key) (to : RunState) (u : RunStateUpdate)
    → (round (λ db. db) now w id to u).1 ≢ lost
unfolding round
round-settles now w id to u = elim (Result-cases (by_id w.db id)) [
  | inl (r, e) ↦ rw (e, round) (ground (arith, commit-settles now w id to u e))
  | inr (x, e) ↦ rw (e, round) (λ h. cc)
]

-- The loop of a transition ends: however many times another writer wins the race, the call returns
-- a run or an error once they stop.
pub transition-settles :
    (races : List (Db → Db)) (now : Time) (w : World) (id : Key) (to : RunState)
    (u : RunStateUpdate)
    → (transition races now w id to u).1 ≢ lost
unfolding transition
transition-settles [] now w id to u = round-settles now w id to u
transition-settles (race ∷ races) now w id to u =
    ground (arith, transition-settles races now (round race now w id to u).0 id to u)

-- The re-read after the write finds the row in its new state, or it is put together from the old one.
land-ok :
    (w : World) (run : Run) (to : RunState) {r : Run}
    → ((x : Run) → by_id w.db run.id ≡ ok x → x.state ≡ to)
    → (land w run to).1 ≡ settled (ok r)
    → r.state ≡ to
unfolding land
land-ok w run to reread h = elim (Result-cases (by_id w.db run.id)) [
  | inl (x, e) ↦ ground (arith, reread x e, rw (e, land) at h)
  | inr (x, e) ↦ ground (arith, rw (e, land) at h)
]

won-state :
    (db : Db) (id : Key) (from to : RunState) (u : RunStateUpdate) (x : Run)
    → HasKeys db
    → (set_state db id (from ∷ []) to u).1 ≡ ok true
    → by_id (set_state db id (from ∷ []) to u).0 id ≡ ok x
    → x.state ≡ to
unfolding apply_update
won-state db id from to u x keys won h =
    ap (λ (r : Run). r.state) (set_state-won db id from to u (keys id) won h).1

commit-ok :
    (race : Db → Db) (now : Time) (w : World) (run : Run) (id : Key) (to : RunState)
    (u : RunStateUpdate) {r : Run}
    → run.id ≡ id
    → HasKeys (race w.db)
    → (commit race now w run id to u).1 ≡ settled (ok r)
    → r.state ≡ to
unfolding commit
commit-ok race now w run id to u key keys h =
    elim (Result-cases (set_state (race w.db) id (run.state ∷ []) to (stamp now to u)).1) [
      | inl (true, e) ↦
          land-ok (record w { db = db' }) run to
            (λ x k. won-state (race w.db) id run.state to (stamp now to u) x keys e (rw key at k))
            (rw (e, commit) at h)
      | inl (false, e) ↦ cc (rw (e, commit) at h)
      | inr (x, e) ↦ cc (rw (e, commit) at h)
    ]
  where
    db' : Db
    db' = (set_state (race w.db) id (run.state ∷ []) to (stamp now to u)).0

round-ok :
    (race : Db → Db) (now : Time) (w : World) (id : Key) (to : RunState) (u : RunStateUpdate)
    {r : Run}
    → HasKeys (race w.db)
    → (round race now w id to u).1 ≡ settled (ok r)
    → r.state ≡ to
unfolding round
round-ok race now w id to u {r} keys h = elim (Result-cases (by_id w.db id)) [
  | inr (x, e) ↦ cc (rw (e, round) at h)
  | inl (x, e) ↦ ground (
    arith,
    rw (e, round) at h,
    (same_state_iff x.state to).0,
    commit-ok race now w x id to u {r = r} (by_id-ok w.db id e).2 keys,
  )
]

round-HasKeys :
    (race : Db → Db) (now : Time) (w : World) (id : Key) (to : RunState) (u : RunStateUpdate)
    → HasKeys w.db
    → HasKeys (race w.db)
    → HasKeys (round race now w id to u).0.db
round-HasKeys race now w id to u keys raced =
    round-db HasKeys race now w id to u keys
      λ r legal. set_state-HasKeys (race w.db) id (r.state ∷ []) to (stamp now to u) raced

-- A transition that succeeds answers with the run in the state that was asked for, provided that the
-- table has a primary key and other writers keep it.
pub transition-ok :
    (races : List (Db → Db)) (now : Time) (w : World) (id : Key) (to : RunState)
    (u : RunStateUpdate) {r : Run}
    → HasKeys w.db
    → All (λ (race : Db → Db). (d : Db) → HasKeys d → HasKeys (race d)) races
    → (transition races now w id to u).1 ≡ settled (ok r)
    → r.state ≡ to
unfolding transition
transition-ok [] now w id to u keys keep h = round-ok (λ db. db) now w id to u keys h
transition-ok (race ∷ races) now w id to u {r} keys keep h = go (round race now w id to u).1 refl (
    transition-ok races now w' id to u (round-HasKeys race now w id to u keys (keep.0 w.db keys))
      keep.1)
  where
    w' : World
    w' = (round race now w id to u).0

    go :
        (res : Round)
        → (round race now w id to u).1 ≡ res
        → ((transition races now w' id to u).1 ≡ settled (ok r) → r.state ≡ to)
        → r.state ≡ to
    go (settled res) e later =
        round-ok race now w id to u {r = r} (keep.0 w.db keys) (cc (e, rw (e, transition) at h))
    go lost e later = later (rw (e, transition) at h)
