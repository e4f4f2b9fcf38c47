-- ===== src/Bus/Balance/Even/Filling.antt =====
-- Publishers and subscribers keep every delivery in one place.
use lexicode.Prelude.{
  ℕ, ◌-◌, Bool, true, not, ◌&&◌, ◌||◌, List, [], ◌∷◌, ◌++◌, ◌==◌, ==_iff, ◌≡◌, refl, inl, inr,
  arith, Bool-cases, Option-cases, ap, sym, ◌∙◌, any, count_where,
}
use lexicode.Domain.Words.{Key}
use lexicode.Bus.{Handling, Bus}
use lexicode.Bus.Queues.{
  is_to, pull, append_item, offer, wait, abandon, take, returns, report, has_room,
}
use lexicode.Bus.Balance.{pull-passes, count_where-pull, count_where-append}
use lexicode.Bus.Balance.Even.{goes, times, Even, append_item-placed, put-Even, finalize-Even}

module _ (t : ℕ) (s : Key) where
  pub offer-Even :
      (u : ℕ) (b : Bus)
      → Even t s (b.dispatches t) b
      → Even t s ((offer u b).dispatches t) (offer u b)
  unfolding offer count_where
  offer-Even u b k = go (b.dispatches u).offered refl
    where
      go :
          (l : List Key)
          → (b.dispatches u).offered ≡ l
          → Even t s ((offer u b).dispatches t) (offer u b)
      go [] e = rw (e, offer) k
      go (x ∷ xs) e = elim (Bool-cases (has_room x b)) [
        | inl room ↦
            rw (e, offer)
              (rw room (
                put-Even t s u (record (b.dispatches u) { offered = xs }) b (append_item x u b) refl
                  (λ far. append_item-placed t s x u b ∙ ground (arith, far))
                  (λ even.
                    let was : times s (x ∷ xs) ≡ times s (b.dispatches u).offered =
                      ap (times s) (sym e) in
                    let more = append_item-placed u s x u b in
                    record {
                      each = ground (arith, even.each, was, more, (==_iff u u).1 refl);
                      size = even.size;
                    })
                  k))
        | inr full ↦
            rw (e, offer)
              (rw full (
                put-Even t s u
                  (record (b.dispatches u) { offered = xs; full = (b.dispatches u).full ++ x ∷ [] })
                  b b refl (λ far. refl)
                  (λ even.
                    let was : times s (x ∷ xs) ≡ times s (b.dispatches u).offered =
                      ap (times s) (sym e) in
                    let more =
                      count_where-append (λ (y : Key). y == s) (b.dispatches u).full (x ∷ []) in
                    record { each = ground (arith, even.each, was, more); size = even.size })
                  k))
      ]

  pub wait-Even :
      (u : ℕ) (b : Bus)
      → Even t s (b.dispatches t) b
      → Even t s ((wait u b).dispatches t) (wait u b)
  unfolding wait count_where
  wait-Even u b k = go (b.dispatches u).full refl
    where
      go :
          (l : List Key) → (b.dispatches u).full ≡ l → Even t s ((wait u b).dispatches t) (wait u b)
      go [] e = rw (e, wait) k
      go (x ∷ xs) e = elim (Bool-cases ((b.dispatches u).abandoned || not (has_room x b))) [
        | inl waits_on ↦ rw (e, wait) (rw waits_on k)
        | inr room ↦
            rw (e, wait)
              (rw room (
                put-Even t s u (record (b.dispatches u) { full = xs }) b (append_item x u b) refl
                  (λ far. append_item-placed t s x u b ∙ ground (arith, far))
                  (λ even.
                    let was : times s (x ∷ xs) ≡ times s (b.dispatches u).full =
                      ap (times s) (sym e) in
                    let more = append_item-placed u s x u b in
                    record {
                      each = ground (arith, even.each, was, more, (==_iff u u).1 refl);
                      size = even.size;
                    })
                  k))
      ]

  pub abandon-Even :
      (u : ℕ) (b : Bus)
      → Even t s (b.dispatches t) b
      → Even t s ((abandon u b).dispatches t) (abandon u b)
  unfolding abandon
  abandon-Even u b k = go (b.dispatches u).offered (b.dispatches u).full refl refl
    where
      go :
          (l m : List Key)
          → (b.dispatches u).offered ≡ l
          → (b.dispatches u).full ≡ m
          → Even t s ((abandon u b).dispatches t) (abandon u b)
      go (x ∷ xs) m e f = rw (e, abandon) k
      go [] [] e f = rw (e, f, abandon) k
      go [] (x ∷ xs) e f =
          rw (e, f, abandon)
            (put-Even t s u (record (b.dispatches u) { abandoned = true }) b b refl (λ far. refl)
              (λ even. record { each = even.each; size = even.size }) k)

  pub take-Even :
      (sub : Key) (b : Bus)
      → Even t s (b.dispatches t) b
      → Even t s ((take sub b).dispatches t) (take sub b)
  unfolding take count_where
  take-Even sub b k = elim (Bool-cases (any (λ h. is_to sub h.delivery) b.busy)) [
    | inl e ↦ rw (e, take) k
    | inr e ↦ elim (Option-cases (pull (is_to sub) b.queue)) [
      | inl f ↦ rw (e, f, take) k
      | inr ((d, rest), f) ↦
          let one = count_where-pull (is_to sub) (goes t s) b.queue f in
          rw (e, f, take) (record { each = ground (arith, one, k.each); size = k.size })
    ]
  ]

  pub returns-Even :
      (sub : Key) (good : Bool) (b : Bus)
      → Even t s (b.dispatches t) b
      → Even t s ((returns sub good b).dispatches t) (returns sub good b)
  unfolding returns count_where
  returns-Even sub good b k =
      elim (Option-cases (pull (λ h. is_to sub h.delivery && not h.answered) b.busy)) [
        | inl f ↦ rw (f, returns) k
        | inr ((h, rest), f) ↦
            let p = λ (x : Handling). is_to sub x.delivery && not x.answered in
            let open_one = pull-passes p b.busy f in
            let one = λ (x : ℕ).
              count_where-pull p (λ (y : Handling). goes x s y.delivery && not y.answered) b.busy
                f in
            let u = h.delivery.ticket in
            let c : Bus = record b {
              busy = record { delivery = h.delivery; answered = true } ∷ rest;
              replies = record { delivery = h.delivery; good = good } ∷ b.replies;
            } in
            rw (f, returns)
              (put-Even t s u
                (record (b.dispatches u) { any_failed = (b.dispatches u).any_failed || not good }) b
                c refl (λ far. ground (arith, one t, open_one))
                (λ even. record {
                  each = ground (arith, one u, open_one, even.each);
                  size = even.size;
                })
                k)
      ]

  pub report-Even :
      (saves : Bool) (sub : Key) (b : Bus)
      → Even t s (b.dispatches t) b
      → Even t s ((report saves sub b).dispatches t) (report saves sub b)
  unfolding report count_where
  report-Even saves sub b k =
      elim (Option-cases (pull (λ h. is_to sub h.delivery && h.answered) b.busy)) [
        | inl f ↦ rw (f, report) k
        | inr ((h, rest), f) ↦
            let p = λ (x : Handling). is_to sub x.delivery && x.answered in
            let closed = pull-passes p b.busy f in
            let one = λ (x : ℕ).
              count_where-pull p (λ (y : Handling). goes x s y.delivery && not y.answered) b.busy
                f in
            let u = h.delivery.ticket in
            let settled =
              put-Even t s u
                (record (b.dispatches u) { remaining = (b.dispatches u).remaining - 1 }) b
                (record b { busy = rest }) refl (λ far. ground (arith, one t, closed))
                (λ even. record {
                  each = ground (arith, one u, closed, even.each);
                  size = even.size;
                })
                k in
            elim (Bool-cases ((b.dispatches u).remaining == 1)) [
              | inl last ↦ rw (f, report) (rw last (finalize-Even t s saves _ _ _ settled))
              | inr more ↦ rw (f, report) (rw more settled)
            ]
      ]
