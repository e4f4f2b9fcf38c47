-- ===== src/Sched/States/Lands.antt =====
-- A legal transition that nothing gets in the way of, in internal/kernel/sched/states.go, lands.
use lexicode.Prelude.{
  ◌≡◌, refl, ◌∙◌, ap, true, false, [], ◌∷◌, ok, ltb, count_where, count_where-pos, arith,
}
use lexicode.Domain.RunState.{RunState, same_state, same_state_iff}
use lexicode.Domain.Words.{Key, Time}
use lexicode.Domain.Rows.{Run}
use lexicode.Store.Db.{Db, Query}
use lexicode.Store.Runs.{RunStateUpdate, is_run, by_id, apply_update, may_set, set_state}
use lexicode.Store.Runs.Laws.{by_id-ok, by_id-update}
use lexicode.Sched.World.{World}
use lexicode.Sched.Machine.{transition_legal}
use lexicode.Sched.States.Effect.{land-db}
use lexicode.Sched.States.{settled, stamp, land, commit, round, transition}

-- The guarded UPDATE of a row that was just read.
set_state-lands :
    (db : Db) (id : Key) (to : RunState) (u : RunStateUpdate) {r : Run}
    → by_id db id ≡ ok r
    → db.outage (Query.set_state id) ≡ false
    → ((set_state db id (r.state ∷ []) to u).1 ≡ ok true)
      × (by_id (set_state db id (r.state ∷ []) to u).0 id ≡ ok (apply_update to u r))
unfolding set_state
set_state-lands db id to u {r} h up =
    let found = by_id-ok db id h in
    let hit : may_set id (r.state ∷ []) r ≡ true =
      unfold may_set in ground (arith, found.2, (same_state_iff r.state r.state).1 refl) in
    let pos : ltb 0 (count_where (may_set id (r.state ∷ [])) db.runs) ≡ true =
      ground
        (arith, count_where-pos (is_run id) (may_set id (r.state ∷ [])) db.runs r found.1 hit) in
    rw (up, pos)
      (
        refl,
        by_id-update db id (may_set id (r.state ∷ [])) (apply_update to u)
              (λ x. unfold apply_update in refl) h
            ∙ rw hit refl,
      )

land-lands :
    (w : World) (run : Run) (to : RunState) {x : Run}
    → by_id w.db run.id ≡ ok x
    → (land w run to).1 ≡ settled (ok x)
unfolding land
land-lands w run to h = rw (h, land) refl

module _ (now : Time) (w : World) (id : Key) (to : RunState) (u : RunStateUpdate) (r : Run)
    (found : by_id w.db id ≡ ok r) (legal : transition_legal r.state to ≡ true)
    (moves : same_state r.state to ≡ false) (up : w.db.outage (Query.set_state id) ≡ false) where
  commit-lands :
      ((commit (λ db. db) now w r id to u).1 ≡ settled (ok (apply_update to (stamp now to u) r)))
      × (by_id (commit (λ db. db) now w r id to u).0.db id
          ≡ ok (apply_update to (stamp now to u) r))
  unfolding commit
  commit-lands =
      let (done, after) = set_state-lands w.db id to (stamp now to u) found up in
      let w' : World = record w { db = (set_state w.db id (r.state ∷ []) to (stamp now to u)).0 } in
      let here : by_id w'.db r.id ≡ ok (apply_update to (stamp now to u) r) =
        ap (by_id w'.db) (by_id-ok w.db id found).2 ∙ after in
      rw (done, commit) (land-lands w' r to here, rw (land-db w' r to) after)

  -- With no other writer about, the run that was read is found in its new state afterwards, and the
  -- transition answers it.
  pub transition-lands :
      ((transition [] now w id to u).1 ≡ settled (ok (apply_update to (stamp now to u) r)))
      × (by_id (transition [] now w id to u).0.db id ≡ ok (apply_update to (stamp now to u) r))
  unfolding transition round
  transition-lands = rw (found, round) (rw (moves, legal) commit-lands)
