-- ===== src/Store/Runs/Laws.antt =====
-- What the writes of Store/Runs.antt guarantee.
use Prim.Native.Nat.{max}
use mathlib.Core.Path.{fun_ext}
use lexicode.Prelude.{
  ℕ, ◌∙◌, inl, inr, ◌==◌, ap, Bool-cases, Option-cases, ◌≤◌, ◌<◌, ◌≡◌, refl, ◌≢◌, Bool, true, false,
  List, [], ◌∷◌, some, ok, if◌then◌else◌, first_where, count_where, update_where, count_where-pos,
  first_where-some, arith, ==_iff,
}
use lexicode.Prelude.Lists.Rows.{
  first_where-update, first_where-update_none, first_where_unique, update_where-update_where,
  count_where-update,
}
use lexicode.Domain.RunState.{RunState}
use lexicode.Domain.Words.{Key}
use lexicode.Domain.Rows.{Run, UsageDelta}
use lexicode.Store.Db.{Db, Query}
use lexicode.Store.Runs.{
  RunStateUpdate, is_run, by_id, apply_update, may_set, set_state, set_log_offset, add_usage,
  add_delta, used, write,
}

pub by_id-ok :
    (db : Db) (id : Key) {r : Run}
    → by_id db id ≡ ok r
    → (db.outage (Query.run_row id) ≡ false)
      × (first_where (is_run id) db.runs ≡ some r)
      × (r.id ≡ id)
unfolding by_id
by_id-ok db id {r} h =
    let found : (db.outage (Query.run_row id) ≡ false)
        × (first_where (is_run id) db.runs ≡ some r) =
      ground arith in
    (found.0, found.1, (==_iff _ id).0 (first_where-some (is_run id) db.runs r found.1))

-- A row just read, in the state it was read in, is hit by the guarded UPDATE.
pub set_state-hit :
    (db : Db) (id : Key) (to : RunState) (u : RunStateUpdate) {r : Run}
    → by_id db id ≡ ok r
    → (set_state db id (r.state ∷ []) to u).1 ≢ ok false
unfolding set_state
set_state-hit db id to u {r} h =
    let found = by_id-ok db id h in
    ground (
      arith,
      count_where-pos (is_run id) (may_set id (r.state ∷ [])) db.runs r found.1
          (unfold may_set in ground (arith, found.2)),
    )

-- A search by key after an UPDATE that keeps the keys finds the row it found before, updated.
pub by_id-update :
    (db : Db) (id : Key) (q : Run → Bool) (f : Run → Run) {r : Run}
    → ((x : Run) → (f x).id ≡ x.id)
    → by_id db id ≡ ok r
    → by_id (record db { runs = update_where q f db.runs }) id ≡ ok (if q r then f r else r)
unfolding by_id
by_id-update db id q f {r} keep h =
    let found = by_id-ok db id h in
    rw (
      found.0,
      first_where-update (is_run id) q f (λ x. ap (λ i. i == id) (keep x)) db.runs found.1,
    )

pub may_set-is_run :
    (id : Key) (from : RunState) (r : Run) → may_set id (from ∷ []) r ≡ true → is_run id r ≡ true
unfolding may_set
may_set-is_run id from r h = ground arith

-- The rows after a guarded UPDATE that affected one: the first with this key is in the new state.
first_where-won :
    (id : Key) (from to : RunState) (u : RunStateUpdate) (rows : List Run) {r : Run}
    → count_where (is_run id) rows ≤ 1
    → 0 < count_where (may_set id (from ∷ [])) rows
    → first_where (is_run id) (update_where (may_set id (from ∷ [])) (apply_update to u) rows)
      ≡ some r
    → (x : Run) × (r ≡ apply_update to u x)
first_where-won id from to u rows one pos h = elim (Option-cases (first_where (is_run id) rows)) [
  | inl e ↦ cc (first_where-update_none (is_run id) hit (apply_update to u) keep rows e)
  | inr (x, e) ↦ (
    x,
    ground (
      arith,
      first_where-update (is_run id) hit (apply_update to u) keep rows {x = x},
      first_where_unique (is_run id) hit rows {x = x} (may_set-is_run id from) one pos e,
    ),
  )
]
  where
    hit : Run → Bool
    hit = may_set id (from ∷ [])

    keep : (x : Run) → is_run id (apply_update to u x) ≡ is_run id x
    keep x = unfold apply_update in refl

-- After a guarded UPDATE that affected a row, the row with this key is the row that was hit, in the
-- new state and with the columns of the update.
pub set_state-won :
    (db : Db) (id : Key) (from to : RunState) (u : RunStateUpdate) {r : Run}
    → count_where (is_run id) db.runs ≤ 1
    → (set_state db id (from ∷ []) to u).1 ≡ ok true
    → by_id (set_state db id (from ∷ []) to u).0 id ≡ ok r
    → (x : Run) × (r ≡ apply_update to u x)
unfolding set_state
set_state-won db id from to u one won h = elim (Bool-cases (db.outage (Query.set_state id))) [
  | inl e ↦ absurd (ground arith)
  | inr e ↦
      first_where-won id from to u db.runs one (ground arith)
        (by_id-ok
          (record db { runs = update_where (may_set id (from ∷ [])) (apply_update to u) db.runs })
          id (rw e at h)).1
]

-- Two updates of the same rows by one statement are the update by both, one after the other.
write-write :
    (db : Db) (q : Query) (p : Run → Bool) (f g : Run → Run)
    → ((x : Run) → p (f x) ≡ p x)
    → write (write db q p f).0 q p g ≡ write db q p (λ x. g (f x))
unfolding write
write-write db q p f g keep = elim (Bool-cases (db.outage q)) [
  | inl e ↦ rw (e, e)
  | inr e ↦ rw (e, e, update_where-update_where p f g keep db.runs)
]

used-add_delta : (u v : UsageDelta) (r : Run) → used v (used u r) ≡ used (add_delta u v) r
unfolding used add_delta
used-add_delta u v r = ground arith

-- The deltas of two usage reports add up to the report of their sum.
pub add_usage-add_delta :
    (db : Db) (id : Key) (u v : UsageDelta)
    → add_usage (add_usage db id u).0 id v ≡ add_usage db id (add_delta u v)
unfolding add_usage write
add_usage-add_delta db id u v =
    write-write db (Query.add_usage id) (is_run id) (used u) (used v) (λ x. unfold used in refl)
    ∙ ap (write db (Query.add_usage id) (is_run id)) (fun_ext (used-add_delta u v))

-- The cursor of a run's log only moves forward: it is the larger of the old and the new offset.
pub set_log_offset-max :
    (db : Db) (id : Key) (offset : ℕ) {r : Run}
    → db.outage (Query.set_log_offset id) ≡ false
    → by_id db id ≡ ok r
    → by_id (set_log_offset db id offset).0 id
      ≡ ok (record r { log_offset = max r.log_offset offset })
unfolding set_log_offset
set_log_offset-max db id offset {r} up h =
    rw (up, by_id-update db id _ (λ r. record r { log_offset = offset }) (λ x. refl) h)
      (ground (arith, by_id-ok db id h))

-- The primary key: no two rows of the table share one.
abbrev pub HasKeys : Db → Type 0
HasKeys db = (id : Key) → count_where (is_run id) db.runs ≤ 1

pub set_state-HasKeys :
    (db : Db) (id : Key) (from : List RunState) (to : RunState) (u : RunStateUpdate)
    → HasKeys db
    → HasKeys (set_state db id from to u).0
unfolding set_state
set_state-HasKeys db id from to u keys k = elim (Bool-cases (db.outage (Query.set_state id))) [
  | inl e ↦ rw e (keys k)
  | inr e ↦
      rw
        (
          e,
          count_where-update (is_run k) (may_set id from) (apply_update to u)
              (λ x. unfold apply_update in refl) db.runs,
        )
        (keys k)
]
