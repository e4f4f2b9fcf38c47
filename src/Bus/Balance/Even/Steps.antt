-- ===== src/Bus/Balance/Even/Steps.antt =====
-- No step of the bus loses a delivery or makes one twice.
use lexicode.Prelude.{
  ℕ, ◌≤◌, Bool, true, false, not, ◌&&◌, ◌||◌, List, [], ◌∷◌, Result, ok, err, ◌==◌, ◌≡◌, refl, inl,
  inr, if◌then◌else◌, arith, Bool-cases, ap, any, count_where,
}
use lexicode.Prelude.Lists.Rows.{count_where-sub}
use lexicode.Domain.Words.{Key, blank, Time}
use lexicode.Domain.Rows.{Event}
use lexicode.Bus.{
  Handling, Reply, Dispatch, no_dispatch, Row, Bus, DispatchState, set_dispatch, track, dispatch_to,
  dispatch, matched, with_row, has_key, is_row, is_stopped, BusError, subscribe, publish, start_bus,
  after_recovery, recover_next, recover,
}
use lexicode.Bus.Steps.{
  new, ◌⇝◌, ◌⇝*◌, subscribes, publishes, starts, recovers, offers, waits, abandons, takes, answers,
  reports, halts, idle, then_step,
}
use lexicode.Bus.Balance.{is_for, Balanced, answered-le-handling}
use lexicode.Bus.Balance.Moves.{⇝-Balanced}
use lexicode.Bus.Balance.Even.{goes, placed, Even, keep-Even, finalize-Even}
use lexicode.Bus.Balance.Even.Filling.{
  offer-Even, wait-Even, abandon-Even, take-Even, returns-Even, report-Even,
}

module _ (t : ℕ) (s : Key) where
  dispatch_to-Even :
      (saves : Bool) (e : Event) (b : Bus) (l : List Key)
      → (b.next ≤ t → placed t s b ≡ 0)
      → Even t s (b.dispatches t) b
      → Even t s ((dispatch_to saves e b l).0.dispatches t) (dispatch_to saves e b l).0
  unfolding dispatch_to track set_dispatch count_where
  dispatch_to-Even saves e b [] fresh k = finalize-Even t s saves e.id DispatchState.done b k
  dispatch_to-Even saves e b (x ∷ xs) fresh k = elim (Bool-cases (t == b.next)) [
    | inr f ↦ rw f (record { each = k.each; size = k.size })
    | inl f ↦
        let none_yet = fresh (ground (arith, f)) in
        rw f (record { each = omega (arith, none_yet); size = refl })
  ]

  dispatch-Even :
      (saves : Bool) (e : Event) (b : Bus)
      → (b.next ≤ t → placed t s b ≡ 0)
      → Even t s (b.dispatches t) b
      → Even t s ((dispatch saves e b).0.dispatches t) (dispatch saves e b).0
  unfolding dispatch
  dispatch-Even saves e b fresh k =
      elim b.stopped
        as (λ x.
          let r = (if x then (b, err is_stopped) else dispatch_to saves e b (matched e b)) in
          Even t s (r.0.dispatches t) r.0) [
            | true ↦ k
            | false ↦ dispatch_to-Even saves e b (matched e b) fresh k
          ]

  publish-Even :
      (inserts saves : Bool) (at : Time) (key : Key) (e : Event) (b : Bus)
      → (b.next ≤ t → placed t s b ≡ 0)
      → Even t s (b.dispatches t) b
      → Even t s
          ((publish inserts saves at key e b).0.dispatches t)
          (publish inserts saves at key e b).0
  unfolding publish
  publish-Even inserts saves at key e b fresh k = elim (Bool-cases (key == blank)) [
    | inl f ↦ rw (f, publish) k
    | inr f ↦ elim (Bool-cases inserts) [
      | inr g ↦ rw (f, g, publish) k
      | inl g ↦ elim (Bool-cases (any (λ r. has_key key r || is_row e.id r) b.table)) [
        | inl h ↦ rw (f, g, publish) (rw h k)
        | inr h ↦
            rw (f, g, publish)
              (rw h (
                dispatch-Even saves e (with_row at key e b) fresh
                  (record { each = k.each; size = k.size })))
      ]
    ]
  ]

  after_recovery-Even :
      (r : Bus × Result BusError (Unit {0}))
      → Even t s (r.0.dispatches t) r.0
      → Even t s ((after_recovery r).dispatches t) (after_recovery r)
  unfolding after_recovery
  after_recovery-Even (b, ok u) k = k
  after_recovery-Even (b, err e) k = record { each = k.each; size = k.size }

  recover_next-Even :
      (saves : Bool) (b : Bus) (l : List Row)
      → (b.next ≤ t → placed t s b ≡ 0)
      → Even t s (b.dispatches t) b
      → Even t s ((recover_next saves b l).dispatches t) (recover_next saves b l)
  unfolding recover_next
  recover_next-Even saves b [] fresh k = k
  recover_next-Even saves b (r ∷ rs) fresh k =
      let b' : Bus = record b { backlog = rs } in
      after_recovery-Even (dispatch saves r.event b')
        (dispatch-Even saves r.event b' fresh (record { each = k.each; size = k.size }))

  -- A tracker that has not been given out has no deliveries.
  fresh-placed : (b : Bus) → Balanced t b → b.next ≤ t → placed t s b ≡ 0
  fresh-placed b k le =
      let free = k.fresh le in
      let expected = ap (λ (d : Dispatch). d.expected) free in
      let remaining = ap (λ (d : Dispatch). d.remaining) free in
      omega (
        arith,
        expected,
        remaining,
        k.books.left,
        k.books.told,
        answered-le-handling t b,
        count_where-sub (is_for t) (goes t s) (λ d e. ground arith) b.queue,
        count_where-sub (λ (h : Handling). is_for t h.delivery)
            (λ (h : Handling). goes t s h.delivery && not h.answered) (λ h e. ground arith) b.busy,
        count_where-sub (λ (r : Reply). is_for t r.delivery) (λ (r : Reply). goes t s r.delivery)
            (λ r e. ground arith) b.replies,
      )

  ⇝-Even :
      {b c : Bus} → b ⇝ c → Balanced t b → Even t s (b.dispatches t) b → Even t s (c.dispatches t) c
  unfolding subscribe start_bus recover
  ⇝-Even {b} (subscribes name matches) whole k =
      keep-Even t s {b = b} {c = (subscribe name matches b).0} (ground arith) (ground arith) k
  ⇝-Even {b} (publishes inserts saves at key e) whole k =
      publish-Even inserts saves at key e b (fresh-placed b whole) k
  ⇝-Even {b} (starts lists) whole k =
      keep-Even t s {b = b} {c = (start_bus lists b).0} (ground arith) (ground arith) k
  ⇝-Even {b} (recovers saves) whole k = recover_next-Even saves b b.backlog (fresh-placed b whole) k
  ⇝-Even {b} (offers u) whole k = offer-Even t s u b k
  ⇝-Even {b} (waits u) whole k = wait-Even t s u b k
  ⇝-Even {b} (abandons u) whole k = abandon-Even t s u b k
  ⇝-Even {b} (takes sub) whole k = take-Even t s sub b k
  ⇝-Even {b} (answers sub good) whole k = returns-Even t s sub good b k
  ⇝-Even {b} (reports saves sub) whole k = report-Even t s saves sub b k
  ⇝-Even {b} halts whole k = record { each = k.each; size = k.size }

  pub ⇝*-Even :
      {b c : Bus}
      → b ⇝* c
      → Balanced t b
      → Even t s (b.dispatches t) b
      → Balanced t c × Even t s (c.dispatches t) c
  ⇝*-Even idle whole k = (whole, k)
  ⇝*-Even (then_step path step) whole k =
      let (whole', k') = ⇝*-Even path whole k in (⇝-Balanced t step whole', ⇝-Even step whole' k')

  pub new-Even :
      (table : List Row) (buf_size : ℕ) (at : Time) → Even t s no_dispatch (new table buf_size at)
  unfolding count_where
  new-Even table buf_size at = record { each = refl; size = refl }
