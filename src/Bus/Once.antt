-- ===== src/Bus/Once.antt =====
-- An occurrence is in the table once.
use lexicode.Prelude.{
  ℕ, ◌≤◌, Bool, true, false, ◌||◌, List, [], ◌∷◌, err, ◌==◌, ==_iff, ◌≡◌, refl, inl, inr,
  if◌then◌else◌, arith, Bool-cases, Option-cases, ◌&&◌, ap, ◌∙◌, any, count_where,
}
use lexicode.Prelude.Lists.Rows.{count_where-update}
use lexicode.Domain.Words.{Key, blank}
use lexicode.Domain.Rows.{Event}
use lexicode.Bus.{
  DispatchState, Row, Bus, is_row, has_key, set_dispatch_state, finalize, matched, dispatch_to,
  dispatch, with_row, publish, recover_next, recover, is_stopped, track,
}
use lexicode.Bus.Queues.{report, pull, is_to, with_dispatch, final_state}
use lexicode.Bus.Steps.{
  ◌⇝◌, ◌⇝*◌, subscribes, publishes, starts, recovers, offers, waits, abandons, takes, answers,
  reports, halts, idle, then_step,
}
use lexicode.Bus.Balance.{count_where-append}
use lexicode.Bus.Tables.{
  subscribe-table, start-table, offer-table, wait-table, abandon-table, take-table, returns-table,
  after_recovery-table,
}

-- The rows with a dedupe key.
abbrev pub copies : Key → Bus → ℕ
copies key b = count_where (has_key key) b.table

finalize-copies :
    (key : Key) (saves : Bool) (id : Key) (st : DispatchState) (b : Bus)
    → copies key (finalize saves id st b) ≡ copies key b
unfolding finalize set_dispatch_state
finalize-copies key true id st b =
    count_where-update (has_key key) (is_row id) _ (λ r. refl) b.table
finalize-copies key false id st b = refl

dispatch-copies :
    (key : Key) (saves : Bool) (e : Event) (b : Bus)
    → copies key (dispatch saves e b).0 ≡ copies key b
unfolding dispatch dispatch_to track
dispatch-copies key saves e b = go b.stopped (matched e b)
  where
    go :
        (x : Bool) (l : List Key)
        → copies key (if x then (b, err is_stopped) else dispatch_to saves e b l).0 ≡ copies key b
    go true l = refl
    go false [] = finalize-copies key saves e.id DispatchState.done b
    go false (s ∷ ss) = refl

none_with_key :
    (other id : Key) (rows : List Row)
    → any (λ r. has_key other r || is_row id r) rows ≡ false
    → count_where (has_key other) rows ≡ 0
unfolding any count_where
none_with_key other id [] f = refl
none_with_key other id (r ∷ rows) f = ground (arith, none_with_key other id rows)

-- An INSERT that the constraint lets through makes the first row of its key.
with_row-copies :
    (key at other : Key) (e : Event) (b : Bus)
    → any (λ r. has_key other r || is_row e.id r) b.table ≡ false
    → copies key b ≤ 1
    → copies key (with_row at other e b) ≤ 1
unfolding count_where
with_row-copies key at other e b free few =
    let none_yet = none_with_key other e.id b.table free in
    let sum = count_where-append (has_key key) b.table (
      record {
        event = e;
        dedupe_key = other;
        dispatch_state = DispatchState.pending;
        created_at = at;
      }
      ∷ []) in
    elim (Bool-cases (other == key)) [
      | inl e ↦
          let same : other ≡ key = (==_iff other key).0 e in
          rw (sum, e) (omega (arith, rw same at none_yet))
      | inr e ↦ rw (sum, e) (omega (arith, few))
    ]

publish-copies :
    (key : Key) (inserts saves : Bool) (at other : Key) (e : Event) (b : Bus)
    → copies key b ≤ 1
    → copies key (publish inserts saves at other e b).0 ≤ 1
unfolding publish
publish-copies key false saves at other e b few = elim (Bool-cases (other == blank)) [
  | inl f ↦ rw (f, publish) few
  | inr f ↦ rw (f, publish) few
]
publish-copies key true saves at other e b few = elim (Bool-cases (other == blank)) [
  | inl f ↦ rw (f, publish) few
  | inr f ↦ elim (Bool-cases (any (λ r. has_key other r || is_row e.id r) b.table)) [
    | inl g ↦ rw (f, publish) (rw g few)
    | inr g ↦
        rw (f, publish)
          (rw (g, dispatch-copies key saves e (with_row at other e b))
            (with_row-copies key at other e b g few))
  ]
]

recover-copies : (key : Key) (saves : Bool) (b : Bus) → copies key (recover saves b) ≡ copies key b
unfolding recover recover_next
recover-copies key saves b = go b.backlog
  where
    go : (l : List Row) → copies key (recover_next saves b l) ≡ copies key b
    go [] = refl
    go (r ∷ rs) =
        let b' : Bus = record b { backlog = rs } in
        ap (count_where (has_key key)) (after_recovery-table (dispatch saves r.event b'))
        ∙ dispatch-copies key saves r.event b'

report-copies :
    (key : Key) (saves : Bool) (sub : Key) (b : Bus)
    → copies key (report saves sub b) ≡ copies key b
unfolding report with_dispatch
report-copies key saves sub b =
    elim (Option-cases (pull (λ x. is_to sub x.delivery && x.answered) b.busy)) [
      | inl f ↦ rw (f, report)
      | inr ((x, rest), f) ↦
          let d = b.dispatches x.delivery.ticket in
          elim (Bool-cases (d.remaining == 1)) [
            | inr more ↦ rw (f, report) (rw more)
            | inl last ↦
                rw (f, report) (rw last (finalize-copies key saves d.event (final_state d) _))
          ]
    ]

⇝-copies : (key : Key) {b c : Bus} → b ⇝ c → copies key b ≤ 1 → copies key c ≤ 1
⇝-copies key {b} (subscribes name matches) k = rw (subscribe-table name matches b) k
⇝-copies key {b} (publishes inserts saves at other e) k =
    publish-copies key inserts saves at other e b k
⇝-copies key {b} (starts lists) k = rw (start-table lists b) k
⇝-copies key {b} (recovers saves) k = rw (recover-copies key saves b) k
⇝-copies key {b} (offers u) k = rw (offer-table u b) k
⇝-copies key {b} (waits u) k = rw (wait-table u b) k
⇝-copies key {b} (abandons u) k = rw (abandon-table u b) k
⇝-copies key {b} (takes sub) k = rw (take-table sub b) k
⇝-copies key {b} (answers sub good) k = rw (returns-table sub good b) k
⇝-copies key {b} (reports saves sub) k = rw (report-copies key saves sub b) k
⇝-copies key {b} halts k = k

-- If at most one row of the table has a dedupe key, then at most one ever has it: an occurrence that is published again,
-- in whatever order with other steps, makes no second row.
pub ⇝*-copies : (key : Key) {b c : Bus} → b ⇝* c → copies key b ≤ 1 → copies key c ≤ 1
⇝*-copies key idle k = k
⇝*-copies key (then_step path step) k = ⇝-copies key step (⇝*-copies key path k)
