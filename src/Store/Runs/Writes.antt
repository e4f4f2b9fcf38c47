-- ===== src/Store/Runs/Writes.antt =====
-- The writes of internal/kernel/store/runstate.go that look at the state of the run.
use lexicode.Prelude.{
  ◌≤◌, ◌≡◌, refl, Bool, true, false, ◌&&◌, ok, err, some, ◌==◌, if◌then◌else◌, first_where,
  count_where, count_where-pos, Bool-cases, inl, inr, arith,
}
use lexicode.Prelude.Lists.Rows.{first_where_unique}
use lexicode.Domain.RunState.{queued, same_state, is_terminal}
use lexicode.Domain.Words.{Key, Time, Words}
use lexicode.Domain.Rows.{Run}
use lexicode.Store.Db.{Db, Query, not_found}
use lexicode.Store.Runs.{is_run, by_id, acknowledge, set_hold_reason}
use lexicode.Store.Runs.Laws.{by_id-ok, by_id-update}

abbrev ended : Key → Run → Bool
ended id r = is_run id r && is_terminal r.state

ended-is_run : (id : Key) (r : Run) → ended id r ≡ true → is_run id r ≡ true
ended-is_run id r h = ground arith

none-ended :
    (db : Db) (id : Key) {r : Run}
    → count_where (is_run id) db.runs ≤ 1
    → first_where (is_run id) db.runs ≡ some r
    → is_terminal r.state ≡ false
    → count_where (ended id) db.runs ≡ 0
none-ended db id {r} one found live = elim (Bool-cases (count_where (ended id) db.runs == 0)) [
  | inl e ↦ ground arith
  | inr pos ↦ absurd (
      ground (
        arith,
        first_where_unique (is_run id) (ended id) db.runs {x = r} (ended-is_run id) one
            (ground arith) found,
      ))
]

-- An acknowledgement reaches a run that has ended, and no other: a run that is still going is left as
-- it was, and the call answers that there is nothing to acknowledge.
pub acknowledge-terminal :
    (db : Db) (id : Key) (at : Time) {r : Run}
    → count_where (is_run id) db.runs ≤ 1
    → db.outage (Query.acknowledge id) ≡ false
    → by_id db id ≡ ok r
    → ((acknowledge db id at).1 ≡ (if is_terminal r.state then ok tt else err not_found))
      × (by_id (acknowledge db id at).0 id
          ≡ ok (if is_terminal r.state then record r { acknowledged_at = some at } else r))
unfolding acknowledge
acknowledge-terminal db id at {r} one up h =
    let found = by_id-ok db id h in
    elim (Bool-cases (is_terminal r.state)) [
      | inr live ↦ rw (live, up, none-ended db id one found.1 live) (refl, h)
      | inl over ↦
          let hit : ended id r ≡ true = ground (arith, found.2) in
          let pos : (count_where (ended id) db.runs == 0) ≡ false =
            ground (arith, count_where-pos (is_run id) (ended id) db.runs r found.1 hit) in
          rw (over, up, pos)
            (
              refl,
              rw
                  (
                    by_id-update db id (ended id) (λ x. record x { acknowledged_at = some at })
                        (λ x. refl) h,
                    hit,
                  )
                  refl,
            )
    ]

-- A hold reason is written on a queued run, and on no other.
pub set_hold_reason-queued :
    (db : Db) (id : Key) (reason : Words) {r : Run}
    → db.outage (Query.set_hold_reason id) ≡ false
    → by_id db id ≡ ok r
    → by_id (set_hold_reason db id reason).0 id
      ≡ ok (if same_state r.state queued then record r { hold_reason = reason } else r)
unfolding set_hold_reason
set_hold_reason-queued db id reason {r} up h =
    rw (up, by_id-update db id _ (λ r. record r { hold_reason = reason }) (λ x. refl) h)
      (ground (arith, by_id-ok db id h))
