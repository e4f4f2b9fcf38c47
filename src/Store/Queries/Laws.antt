-- ===== src/Store/Queries/Laws.antt =====
-- What the searches of internal/kernel/store find, and what follows when they find nothing.
use lexicode.Prelude.{
  ◌≤◌, ◌≡◌, refl, Bool, true, false, List, [], ◌∷◌, Option, none, some, ok, err, select, All, arith,
  Option-cases, inl, inr,
}
use lexicode.Domain.RunState.{loop_stopped, same_state_iff, is_terminal}
use lexicode.Domain.Words.{Key, Time}
use lexicode.Domain.Rows.{Run}
use lexicode.Store.Db.{Db, Query, StoreError, one_row}
use lexicode.Store.Queries.{live_on, newest, latest_on_subject, active_on_subject}

newest-none : (rs : List Run) → newest rs ≡ none → rs ≡ []
unfolding newest
newest-none [] h = refl
newest-none (r ∷ rs) h = ground arith

-- An empty selection: what follows from a test that fails holds of every row.
select-nil :
    (P : Run → Type 0) (p : Run → Bool)
    → ((r : Run) → p r ≡ false → P r)
    → (rs : List Run) → select p rs ≡ []
    → All P rs
unfolding select
select-nil P p out [] h = tt
select-nil P p out (r ∷ rs) h = (out r (ground arith), select-nil P p out rs (ground arith))

one_row-err :
    {A : Type 0} (down : Bool) (o : Option A) {e : StoreError}
    → down ≡ false
    → one_row down o ≡ err e
    → o ≡ none
unfolding one_row
one_row-err down o up h = ground arith

-- No row for the debounce probe: every run of the trigger on the subject was queued before the
-- cutoff, or is loop_stopped.
pub latest_on_subject-err :
    (db : Db) (trigger subject : Key) (cutoff : Time) {e : StoreError}
    → db.outage (Query.latest_on_subject trigger) ≡ false
    → latest_on_subject db trigger subject cutoff ≡ err e
    → All
        (λ (r : Run).
          r.trigger_id ≡ some trigger
          → r.subject_key ≡ subject
          → cutoff ≤ r.queued_at
          → r.state ≡ loop_stopped)
        db.runs
unfolding latest_on_subject
latest_on_subject-err db trigger subject cutoff up h =
    select-nil _ _ (λ r out own on late. ground (arith, (same_state_iff r.state loop_stopped).0))
      db.runs (newest-none _ (one_row-err _ _ up h))

newest-select :
    (p : Run → Bool) (rs : List Run) {r : Run} → newest (select p rs) ≡ some r → p r ≡ true
unfolding newest select
newest-select p [] h = ground arith
newest-select p (x ∷ rs) {r} h = elim (Option-cases (newest (select p rs))) [
  | inl e ↦ ground arith
  | inr (s, e) ↦ ground (arith, newest-select p rs {r = s} e, newest-select p rs {r = r})
]

-- What the cancel-in-progress probe finds is a live run of the trigger on the subject.
pub active_on_subject-ok :
    (db : Db) (trigger subject : Key) {r : Run}
    → active_on_subject db trigger subject ≡ ok r
    → (r.trigger_id ≡ some trigger) × (r.subject_key ≡ subject) × (is_terminal r.state ≡ false)
unfolding active_on_subject one_row
active_on_subject-ok db trigger subject {r} h =
    ground (arith, newest-select (live_on trigger subject) db.runs {r = r})
