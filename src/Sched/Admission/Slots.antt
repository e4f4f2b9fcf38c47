-- ===== src/Sched/Admission/Slots.antt =====
-- How the writes of internal/kernel/sched/admission.go change the number of runs in container slots.
use lexicode.Prelude.{
  ap, subst, ℕ, ◌+◌, ◌≤◌, ◌≡◌, refl, sym, Bool, Bool-cases, inl, inr, ◌&&◌, List, [], ◌∷◌, ◌==◌,
  count_where, update_where, arith,
}
use lexicode.Prelude.Lists.Rows.{
  count_where-update, count_where-update_add, count_where-update_drop, count_where-sub,
}
use lexicode.Domain.RunState.{RunState, same_state, queued, provisioning, failed, holds_slot}
use lexicode.Domain.Words.{Key, Time, Words, Words-discrete}
use lexicode.Domain.Rows.{Run}
use lexicode.Store.Db.{Db, Query}
use lexicode.Store.Runs.{RunStateUpdate, is_run, apply_update, may_set, set_state, set_hold_reason}
use lexicode.Store.Runs.Laws.{HasKeys, set_state-HasKeys, may_set-is_run}
use lexicode.Store.Queries.{drop_queued}
use lexicode.Sched.World.{World, published}
use lexicode.Sched.States.{stamp, transition}
use lexicode.Sched.States.Effect.{round-db}
use lexicode.Sched.Admission.{hold_anew, hold_if, Counters, wip_check, hold}

abbrev pub slot : Run → Bool
slot r = holds_slot r.state

-- The runs that hold a container slot.
unfoldable pub slots : Db → ℕ
unfolding count_where
slots db = count_where slot db.runs

-- No other writer comes between a read and the write that follows it.
abbrev pub quiet : Run → List (Db → Db)
quiet run = []

set_state-slots :
    (db : Db) (id : Key) (from to : RunState) (u : RunStateUpdate)
    → HasKeys db
    → slots (set_state db id (from ∷ []) to u).0 ≤ slots db + 1
unfolding slots set_state
set_state-slots db id from to u keys = elim (Bool-cases (db.outage (Query.set_state id))) [
  | inl e ↦ rw e (omega arith)
  | inr e ↦ rw e (
      omega (
        arith,
        count_where-update_add slot (may_set id (from ∷ [])) (apply_update to u) db.runs,
        count_where-sub (is_run id) (may_set id (from ∷ [])) (may_set-is_run id from) db.runs,
        keys id,
      ))
]

set_state_failed-slots :
    (db : Db) (id : Key) (from : RunState) (u : RunStateUpdate)
    → slots (set_state db id (from ∷ []) failed u).0 ≤ slots db
unfolding slots set_state
set_state_failed-slots db id from u = elim (Bool-cases (db.outage (Query.set_state id))) [
  | inl e ↦ rw e (omega arith)
  | inr e ↦ rw e (
      count_where-update_drop slot (may_set id (from ∷ [])) (apply_update failed u)
        (λ x. unfold apply_update in refl) db.runs)
]

-- The database has a primary key, and at most `n` runs hold a slot.
pub record Holds (n : ℕ) (db : Db) : Type 0 where
  pub keys : HasKeys db
  pub room : slots db ≤ n

pub admit-Holds :
    (n : ℕ) (now : Time) (w : World) (id : Key) (u : RunStateUpdate)
    → Holds n w.db
    → Holds (n + 1) (transition [] now w id provisioning u).0.db
unfolding transition
admit-Holds n now w id u h =
    round-db (Holds (n + 1)) (λ db. db) now w id provisioning u
      (record { keys = h.keys; room = omega (arith, h.room) })
      λ r legal. record {
        keys =
            set_state-HasKeys w.db id (r.state ∷ []) provisioning (stamp now provisioning u) h.keys;
        room = omega (
          arith,
          h.room,
          set_state-slots w.db id r.state provisioning (stamp now provisioning u) h.keys,
        );
      }

pub fail-Holds :
    (n : ℕ) (now : Time) (w : World) (id : Key) (u : RunStateUpdate)
    → Holds n w.db
    → Holds n (transition [] now w id failed u).0.db
unfolding transition
fail-Holds n now w id u h =
    round-db (Holds n) (λ db. db) now w id failed u h
      λ r legal. record {
        keys = set_state-HasKeys w.db id (r.state ∷ []) failed (stamp now failed u) h.keys;
        room = omega (arith, h.room, set_state_failed-slots w.db id r.state (stamp now failed u));
      }

-- A write that changes neither keys nor states keeps the slots.
still-Holds :
    (n : ℕ) (db : Db) (q : Run → Bool) (f : Run → Run)
    → ((x : Run) → (f x).id ≡ x.id)
    → ((x : Run) → (f x).state ≡ x.state)
    → Holds n db
    → Holds n (record db { runs = update_where q f db.runs })
still-Holds n db q f same_id same_slot h = record {
  keys = λ k.
      rw (count_where-update (is_run k) q f (λ x. ap (λ i. i == k) (same_id x)) db.runs) (h.keys k);
  room =
      unfold slots in
      rw (count_where-update slot q f (λ x. ap holds_slot (same_slot x)) db.runs) h.room;
}

set_hold_reason-Holds :
    (n : ℕ) (db : Db) (id : Key) (reason : Words)
    → Holds n db
    → Holds n (set_hold_reason db id reason).0
unfolding set_hold_reason
set_hold_reason-Holds n db id reason h = elim (Bool-cases (db.outage (Query.set_hold_reason id))) [
  | inl e ↦ rw e h
  | inr e ↦ rw e (
      still-Holds n db (λ r. is_run id r && same_state r.state queued)
        (λ r. record r { hold_reason = reason }) (λ x. refl) (λ x. refl) h)
]

published-db : (run : Run) (w : World) → (published run w).db ≡ w.db
unfolding published
published-db run w = ground arith

hold_anew-Holds :
    (n : ℕ) (w : World) (run : Run) (reason : Words)
    → Holds n w.db
    → Holds n (hold_anew w run reason).db
hold_anew-Holds n w run reason h =
    subst (Holds n) (sym wrote) (set_hold_reason-Holds n w.db run.id reason h)
  where
    wrote : (hold_anew w run reason).db ≡ (set_hold_reason w.db run.id reason).0
    wrote = unfold hold_anew published in ground arith

hold_if-Holds :
    {A : Type 0} (d : Dec A) (n : ℕ) (w : World) (run : Run) (reason : Words)
    → Holds n w.db
    → Holds n (hold_if d w run reason).db
unfolding hold_if
hold_if-Holds (yes same) n w run reason h = h
hold_if-Holds (no changed) n w run reason h = hold_anew-Holds n w run reason h

pub hold-Holds :
    (n : ℕ) (w : World) (run : Run) (reason : Words) → Holds n w.db → Holds n (hold w run reason).db
unfolding hold
hold-Holds n w run reason = hold_if-Holds (Words-discrete run.hold_reason reason) n w run reason

-- Dropping messages touches no run.
pub drop_queued-Holds : (n : ℕ) (db : Db) (id : Key) → Holds n db → Holds n (drop_queued db id)
unfolding drop_queued
drop_queued-Holds n db id h = elim (Bool-cases (db.outage Query.drop_queued)) [
  | inl e ↦ rw (e, drop_queued) h
  | inr e ↦ rw (e, drop_queued) (record { keys = h.keys; room = unfold slots in h.room })
]

-- The WIP check counts columns, and leaves the other counters.
pub wip_check-global :
    (db : Db) (project ticket : Key) (c : Counters)
    → (wip_check db project ticket c).1.global ≡ c.global
unfolding wip_check
wip_check-global db project ticket c = ground arith
