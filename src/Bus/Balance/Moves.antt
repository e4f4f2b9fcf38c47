-- ===== src/Bus/Balance/Moves.antt =====
-- Every step of the bus keeps the books of every tracker.
use lexicode.Prelude.{
  ℕ, ◌+◌, ◌-◌, Bool, true, false, not, ◌&&◌, ◌||◌, List, [], ◌∷◌, ◌++◌, Result, ok, err, ◌==◌,
  ==_iff, ◌≡◌, ◌≢◌, refl, inl, inr, if◌then◌else◌, arith, Bool-cases, Option-cases, ◌∙◌, any,
  count_where,
}
use lexicode.Domain.Words.{Key, blank, Time}
use lexicode.Domain.Rows.{Event}
use lexicode.Bus.{
  Row, Handling, Bus, DispatchState, dispatch_to, dispatch, matched, with_row, has_key, is_row,
  is_stopped, BusError, subscribe, publish, start_bus, after_recovery, recover_next, recover,
}
use lexicode.Bus.Queues.{
  is_to, pull, offer, wait, abandon, take, returns, report, has_room, append_item,
}
use lexicode.Bus.Steps.{
  new, ◌⇝◌, ◌⇝*◌, subscribes, publishes, starts, recovers, offers, waits, abandons, takes, answers,
  reports, halts, idle, then_step,
}
use lexicode.Bus.Balance.{
  is_for, is_answer, queued, Balanced, pull-passes, count_where-pull, count_where-append,
  length-append, keep-Balanced, put-Balanced, finalize-Balanced, track-Balanced,
}

enqueue-queued :
    (t : ℕ) (sub : Key) (u : ℕ) (b : Bus)
    → queued t (append_item sub u b) ≡ queued t b + (if u == t then 1 else 0)
unfolding count_where
enqueue-queued t sub u b =
    count_where-append (is_for t) b.queue (record { sub = sub; ticket = u } ∷ []) ∙ ground arith

-- A delivery is of one tracker.
tag_other : (t u : ℕ) → t ≢ u → (u == t) ≡ false
tag_other t u far = ground arith

tag_self : (u : ℕ) → (u == u) ≡ true
tag_self u = (==_iff u u).1 refl

module _ (t : ℕ) where
  pub offer-Balanced : (u : ℕ) (b : Bus) → Balanced t b → Balanced t (offer u b)
  unfolding offer
  offer-Balanced u b k = go (b.dispatches u).offered refl
    where
      go : (l : List Key) → (b.dispatches u).offered ≡ l → Balanced t (offer u b)
      go [] e = rw (e, offer) k
      go (s ∷ ss) e = elim (Bool-cases (has_room s b)) [
        | inl room ↦
            rw (e, offer)
              (rw room (
                put-Balanced t u (record (b.dispatches u) { offered = ss }) b (append_item s u b)
                  refl refl
                  (λ far. (
                    rw (enqueue-queued t s u b, tag_other t u far) (omega arith),
                    refl,
                    refl,
                    refl,
                    refl,
                  ))
                  (λ books.
                    let was = books.left in
                    (
                      record {
                        left = rw (enqueue-queued u s u b, tag_self u) (omega (arith, rw e at was));
                        told = books.told;
                        spotless = books.spotless;
                        most = books.most;
                      },
                      omega (arith, rw e at was),
                    ))
                  k))
        | inr none_free ↦
            rw (e, offer)
              (rw none_free (
                put-Balanced t u
                  (record (b.dispatches u) { offered = ss; full = (b.dispatches u).full ++ s ∷ [] })
                  b b refl refl (λ far. (refl, refl, refl, refl, refl))
                  (λ books.
                    let was = books.left in
                    (
                      record {
                        left =
                            rw (length-append (b.dispatches u).full (s ∷ []))
                              (omega (arith, rw e at was));
                        told = books.told;
                        spotless = books.spotless;
                        most = books.most;
                      },
                      omega (arith, rw e at was),
                    ))
                  k))
      ]

  pub wait-Balanced : (u : ℕ) (b : Bus) → Balanced t b → Balanced t (wait u b)
  unfolding wait
  wait-Balanced u b k = go (b.dispatches u).full refl
    where
      go : (l : List Key) → (b.dispatches u).full ≡ l → Balanced t (wait u b)
      go [] e = rw (e, wait) k
      go (s ∷ ss) e = elim (Bool-cases ((b.dispatches u).abandoned || not (has_room s b))) [
        | inl waits_on ↦ rw (e, wait) (rw waits_on k)
        | inr room ↦
            rw (e, wait)
              (rw room (
                put-Balanced t u (record (b.dispatches u) { full = ss }) b (append_item s u b) refl
                  refl
                  (λ far. (
                    rw (enqueue-queued t s u b, tag_other t u far) (omega arith),
                    refl,
                    refl,
                    refl,
                    refl,
                  ))
                  (λ books.
                    let was = books.left in
                    (
                      record {
                        left = rw (enqueue-queued u s u b, tag_self u) (omega (arith, rw e at was));
                        told = books.told;
                        spotless = books.spotless;
                        most = books.most;
                      },
                      omega (arith, rw e at was),
                    ))
                  k))
      ]

  pub abandon-Balanced : (u : ℕ) (b : Bus) → Balanced t b → Balanced t (abandon u b)
  unfolding abandon
  abandon-Balanced u b k = go (b.dispatches u).offered (b.dispatches u).full refl refl
    where
      go :
          (l m : List Key)
          → (b.dispatches u).offered ≡ l
          → (b.dispatches u).full ≡ m
          → Balanced t (abandon u b)
      go (s ∷ ss) m e f = rw (e, abandon) k
      go [] [] e f = rw (e, f, abandon) k
      go [] (s ∷ ss) e f =
          rw (e, f, abandon)
            (put-Balanced t u (record (b.dispatches u) { abandoned = true }) b b refl refl
              (λ far. (refl, refl, refl, refl, refl))
              (λ books.
                let was = books.left in
                (
                  record {
                    left = books.left;
                    told = books.told;
                    spotless = books.spotless;
                    most = books.most;
                  },
                  omega (arith, rw f at was),
                ))
              k)

  -- A delivery that a subscriber takes goes from the queue to the handler.
  pub take-Balanced : (sub : Key) (b : Bus) → Balanced t b → Balanced t (take sub b)
  unfolding take count_where
  take-Balanced sub b k = elim (Bool-cases (any (λ h. is_to sub h.delivery) b.busy)) [
    | inl e ↦ rw (e, take) k
    | inr e ↦ elim (Option-cases (pull (is_to sub) b.queue)) [
      | inl f ↦ rw (e, f, take) k
      | inr ((d, rest), f) ↦
          rw (e, f, take)
            (record {
              books = record {
                left =
                    ground (arith, count_where-pull (is_to sub) (is_for t) b.queue f, k.books.left);
                told = ground (arith, k.books.told);
                spotless = k.books.spotless;
                most = k.books.most;
              };
              fresh = k.fresh;
            })
    ]
  ]

  pub returns-Balanced :
      (sub : Key) (good : Bool) (b : Bus) → Balanced t b → Balanced t (returns sub good b)
  unfolding returns count_where
  returns-Balanced sub good b k =
      elim (Option-cases (pull (λ h. is_to sub h.delivery && not h.answered) b.busy)) [
        | inl f ↦ rw (f, returns) k
        | inr ((h, rest), f) ↦
            let open_one =
              pull-passes (λ (x : Handling). is_to sub x.delivery && not x.answered) b.busy f in
            let u = h.delivery.ticket in
            let c : Bus = record b {
              busy = record { delivery = h.delivery; answered = true } ∷ rest;
              replies = record { delivery = h.delivery; good = good } ∷ b.replies;
            } in
            let all = λ (x : ℕ).
              count_where-pull (λ (y : Handling). is_to sub y.delivery && not y.answered)
                (λ (y : Handling). is_for x y.delivery) b.busy f in
            let done = λ (x : ℕ).
              count_where-pull (λ (y : Handling). is_to sub y.delivery && not y.answered)
                (is_answer x) b.busy f in
            rw (f, returns)
              (put-Balanced t u
                (record (b.dispatches u) { any_failed = (b.dispatches u).any_failed || not good }) b
                c refl refl
                (λ far. (
                  refl,
                  ground (arith, all t, tag_other t u far),
                  ground (arith, done t, tag_other t u far),
                  ground (arith, tag_other t u far),
                  ground (arith, tag_other t u far),
                ))
                (λ books. (
                  record {
                    left = ground (arith, all u, books.left, tag_self u);
                    told = ground (arith, done u, books.told, tag_self u, open_one);
                    spotless = λ e. ground (arith, books.spotless);
                    most = books.most;
                  },
                  ground (arith, all u, books.left, tag_self u),
                ))
                k)
      ]

  pub report-Balanced :
      (saves : Bool) (sub : Key) (b : Bus) → Balanced t b → Balanced t (report saves sub b)
  unfolding report count_where
  report-Balanced saves sub b k =
      elim (Option-cases (pull (λ h. is_to sub h.delivery && h.answered) b.busy)) [
        | inl f ↦ rw (f, report) k
        | inr ((h, rest), f) ↦
            let p = λ (x : Handling). is_to sub x.delivery && x.answered in
            let closed = pull-passes p b.busy f in
            let u = h.delivery.ticket in
            let all =
              λ (x : ℕ). count_where-pull p (λ (y : Handling). is_for x y.delivery) b.busy f in
            let done = λ (x : ℕ). count_where-pull p (is_answer x) b.busy f in
            let settled =
              put-Balanced t u
                (record (b.dispatches u) { remaining = (b.dispatches u).remaining - 1 }) b
                (record b { busy = rest }) refl refl
                (λ far. (
                  refl,
                  ground (arith, all t, tag_other t u far),
                  ground (arith, done t, tag_other t u far),
                  refl,
                  refl,
                ))
                (λ books. (
                  record {
                    left = ground (arith, all u, books.left, tag_self u);
                    told =
                        ground (arith, all u, done u, books.left, books.told, tag_self u, closed);
                    spotless = books.spotless;
                    most = omega (arith, books.most);
                  },
                  ground (arith, all u, books.left, tag_self u),
                ))
                k in
            elim (Bool-cases ((b.dispatches u).remaining == 1)) [
              | inl last ↦ rw (f, report) (rw last (finalize-Balanced t saves _ _ _ settled))
              | inr more ↦ rw (f, report) (rw more settled)
            ]
      ]

  dispatch_to-Balanced :
      (saves : Bool) (e : Event) (b : Bus) (l : List Key)
      → Balanced t b
      → Balanced t (dispatch_to saves e b l).0
  unfolding dispatch_to
  dispatch_to-Balanced saves e b [] k = finalize-Balanced t saves e.id DispatchState.done b k
  dispatch_to-Balanced saves e b (s ∷ ss) k = track-Balanced t e.id (s ∷ ss) b k

  dispatch-Balanced :
      (saves : Bool) (e : Event) (b : Bus) → Balanced t b → Balanced t (dispatch saves e b).0
  unfolding dispatch
  dispatch-Balanced saves e b k =
      elim b.stopped
        as (λ x.
          Balanced t (if x then (b, err is_stopped) else dispatch_to saves e b (matched e b)).0) [
            | true ↦ k
            | false ↦ dispatch_to-Balanced saves e b (matched e b) k
          ]

  subscribe-Balanced :
      (name : Key) (matches : Event → Bool) (b : Bus)
      → Balanced t b
      → Balanced t (subscribe name matches b).0
  unfolding subscribe
  subscribe-Balanced name matches b k =
      keep-Balanced t {b = b} {c = (subscribe name matches b).0} (ground arith) (ground arith)
        (ground arith, ground arith, ground arith, ground arith, ground arith) k

  publish-Balanced :
      (inserts saves : Bool) (at : Time) (key : Key) (e : Event) (b : Bus)
      → Balanced t b
      → Balanced t (publish inserts saves at key e b).0
  unfolding publish
  publish-Balanced false saves at key e b k = elim (Bool-cases (key == blank)) [
    | inl f ↦ rw (f, publish) k
    | inr f ↦ rw (f, publish) k
  ]
  publish-Balanced true saves at key e b k = elim (Bool-cases (key == blank)) [
    | inl f ↦ rw (f, publish) k
    | inr f ↦ elim (Bool-cases (any (λ r. has_key key r || is_row e.id r) b.table)) [
      | inl g ↦ rw (f, publish) (rw g k)
      | inr g ↦
          rw (f, publish)
            (rw g (
              dispatch-Balanced saves e (with_row at key e b)
                (keep-Balanced t {b = b} refl refl (refl, refl, refl, refl, refl) k)))
    ]
  ]

  start-Balanced : (lists : Bool) (b : Bus) → Balanced t b → Balanced t (start_bus lists b).0
  unfolding start_bus
  start-Balanced lists b k =
      keep-Balanced t {b = b} {c = (start_bus lists b).0} (ground arith) (ground arith)
        (ground arith, ground arith, ground arith, ground arith, ground arith) k

  after_recovery-Balanced :
      (r : Bus × Result BusError (Unit {0})) → Balanced t r.0 → Balanced t (after_recovery r)
  unfolding after_recovery
  after_recovery-Balanced (b, ok u) k = k
  after_recovery-Balanced (b, err e) k =
      keep-Balanced t {b = b} refl refl (refl, refl, refl, refl, refl) k

  recover_next-Balanced :
      (saves : Bool) (b : Bus) (l : List Row) → Balanced t b → Balanced t (recover_next saves b l)
  unfolding recover_next
  recover_next-Balanced saves b [] k = k
  recover_next-Balanced saves b (r ∷ rs) k =
      let b' : Bus = record b { backlog = rs } in
      after_recovery-Balanced (dispatch saves r.event b') (
        dispatch-Balanced saves r.event b'
          (keep-Balanced t {b = b} refl refl (refl, refl, refl, refl, refl) k))

  recover-Balanced : (saves : Bool) (b : Bus) → Balanced t b → Balanced t (recover saves b)
  unfolding recover
  recover-Balanced saves b k = recover_next-Balanced saves b b.backlog k

  -- Whatever the order of the steps, the count that a tracker keeps is the number of deliveries that are
  -- not reported, and what it expects is answered or still counted.
  pub ⇝-Balanced : {b c : Bus} → b ⇝ c → Balanced t b → Balanced t c
  ⇝-Balanced {b} (subscribes name matches) k = subscribe-Balanced name matches b k
  ⇝-Balanced {b} (publishes inserts saves at key e) k = publish-Balanced inserts saves at key e b k
  ⇝-Balanced {b} (starts lists) k = start-Balanced lists b k
  ⇝-Balanced {b} (recovers saves) k = recover-Balanced saves b k
  ⇝-Balanced {b} (offers u) k = offer-Balanced u b k
  ⇝-Balanced {b} (waits u) k = wait-Balanced u b k
  ⇝-Balanced {b} (abandons u) k = abandon-Balanced u b k
  ⇝-Balanced {b} (takes sub) k = take-Balanced sub b k
  ⇝-Balanced {b} (answers sub good) k = returns-Balanced sub good b k
  ⇝-Balanced {b} (reports saves sub) k = report-Balanced saves sub b k
  ⇝-Balanced {b} halts k = keep-Balanced t refl refl (refl, refl, refl, refl, refl) k

  pub ⇝*-Balanced : {b c : Bus} → b ⇝* c → Balanced t b → Balanced t c
  ⇝*-Balanced idle k = k
  ⇝*-Balanced (then_step path step) k = ⇝-Balanced step (⇝*-Balanced path k)

  pub new-Balanced :
      (table : List Row) (buf_size : ℕ) (at : Time) → Balanced t (new table buf_size at)
  unfolding count_where
  new-Balanced table buf_size at = record {
    books = record {
      left = omega arith;
      told = omega arith;
      spotless = λ e. refl;
      most = omega arith;
    };
    fresh = λ le. refl;
  }
