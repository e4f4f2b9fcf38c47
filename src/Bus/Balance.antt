-- ===== src/Bus/Balance.antt =====
-- The count that a tracker keeps is the number of deliveries that have not been reported.
pub mod Moves
pub mod Even
pub mod Whole
use lexicode.Prelude.{
  ℕ, zero, suc, ◌+◌, ◌-◌, ◌≤◌, ◌<◌, Bool, true, false, not, ◌&&◌, ◌||◌, List, [], ◌∷◌, ◌++◌, Option,
  none, some, ◌==◌, ==_iff, ◌≡◌, ◌≢◌, refl, ◌⊎◌, inl, inr, if◌then◌else◌, arith, Bool-cases,
  Option-cases, ap, subst, sym, ◌∙◌, length, any, ltb, count_where,
}
use lexicode.Prelude.Lists.Rows.{count_where-sub}
use lexicode.Domain.Words.{Key, Time}
use lexicode.Domain.Rows.{Event}
use lexicode.Bus.{
  Delivery, Handling, Reply, Dispatch, no_dispatch, Bus, DispatchState, finalize, set_dispatch,
  track, dispatch, matched, subscribe, publish, start_bus, recover, sub_names,
}
use lexicode.Bus.Queues.{
  is_to, pull, with_dispatch, offer, wait, abandon, take, returns, report, has_room,
}
use lexicode.Bus.Steps.{
  new, ◌⇝◌, ◌⇝*◌, subscribes, publishes, starts, recovers, offers, waits, abandons, takes, answers,
  reports, halts, idle, then_step,
}

abbrev pub is_for : ℕ → Delivery → Bool
is_for t d = d.ticket == t

abbrev pub is_answer : ℕ → Handling → Bool
is_answer t h = is_for t h.delivery && h.answered

abbrev pub is_bad : ℕ → Reply → Bool
is_bad t r = is_for t r.delivery && not r.good

-- The deliveries for a tracker: in queues, at handlers, answered but not reported, answered, failed.
abbrev pub queued : ℕ → Bus → ℕ
queued t b = count_where (is_for t) b.queue

abbrev pub handling : ℕ → Bus → ℕ
handling t b = count_where (λ h. is_for t h.delivery) b.busy

abbrev pub answered : ℕ → Bus → ℕ
answered t b = count_where (is_answer t) b.busy

abbrev pub replied : ℕ → Bus → ℕ
replied t b = count_where (λ r. is_for t r.delivery) b.replies

abbrev pub bad : ℕ → Bus → ℕ
bad t b = count_where (is_bad t) b.replies

-- How the books of a tracker balance: what is still to be reported is offered, waits for room, is queued or
-- is at a handler; what was expected has been answered or is still to be; and a failure is remembered.
pub record Books (t : ℕ) (d : Dispatch) (b : Bus) : Type 0 where
  pub left : d.remaining ≡ length d.offered + length d.full + queued t b + handling t b
  pub told : d.expected + answered t b ≡ d.remaining + replied t b
  pub spotless : d.any_failed ≡ false → bad t b ≡ 0
  pub most : d.remaining ≤ d.expected

pub record Balanced (t : ℕ) (b : Bus) : Type 0 where
  pub books : Books t (b.dispatches t) b
  pub fresh : b.next ≤ t → b.dispatches t ≡ no_dispatch

module _ {ℓ} {A : Type ℓ} where
  pull-cons :
      (p : A → Bool) (y : A) (ys : List A) {x : A} {rest : List A}
      → pull p (y ∷ ys) ≡ some (x, rest)
      → ((p y ≡ true) × (y ≡ x) × (ys ≡ rest))
        ⊎ ((zs : List A) × (pull p ys ≡ some (x, zs)) × (y ∷ zs ≡ rest))
  unfolding pull
  pull-cons p y ys {x} {rest} h = elim (Bool-cases (p y)) [
    | inl e ↦
        let same : (y ≡ x) × (ys ≡ rest) = ground (arith, rw e at h) in inl (e, same.0, same.1)
    | inr e ↦ elim (Option-cases (pull p ys)) [
      | inl f ↦ absurd (cc (rw (e, f) at h))
      | inr ((z, zs), f) ↦
          let same : (z ≡ x) × (y ∷ zs ≡ rest) = ground (arith, rw (e, f) at h) in
          inr (zs, f ∙ ap (λ (u : A). some (u, zs)) same.0, same.1)
    ]
  ]

  -- What is pulled out of a list passes the test, and leaves the counts by one.
  pub pull-passes :
      (p : A → Bool) (xs : List A) {x : A} {rest : List A} → pull p xs ≡ some (x, rest) → p x ≡ true
  unfolding pull
  pull-passes p [] h = absurd (cc)
  pull-passes p (y ∷ ys) {x} {rest} h = elim (pull-cons p y ys h) [
    | inl (e, same, tail) ↦ ap p (sym same) ∙ e
    | inr (zs, f, tail) ↦ pull-passes p ys f
  ]

  pub count_where-pull :
      (p q : A → Bool) (xs : List A) {x : A} {rest : List A}
      → pull p xs ≡ some (x, rest)
      → count_where q xs ≡ count_where q rest + (if q x then 1 else 0)
  unfolding pull count_where
  count_where-pull p q [] h = absurd (cc)
  count_where-pull p q (y ∷ ys) {x} {rest} h = elim (pull-cons p y ys h) [
    | inl (e, same, tail) ↦ rw (← same, ← tail) (ground arith)
    | inr (zs, f, tail) ↦ rw (← tail) (ground (arith, count_where-pull p q ys f))
  ]

  pub count_where-append :
      (q : A → Bool) (xs ys : List A)
      → count_where q (xs ++ ys) ≡ count_where q xs + count_where q ys
  unfolding count_where
  count_where-append q [] ys = omega arith
  count_where-append q (x ∷ xs) ys = ground (arith, count_where-append q xs ys)

pub length-append {ℓ} : {A : Type ℓ} (xs ys : List A) → length (xs ++ ys) ≡ length xs + length ys
length-append [] ys = omega arith
length-append (x ∷ xs) ys = omega (arith, length-append xs ys)

module _ (t : ℕ) where
  -- A tracker of the bus that something is left of was given out.
  pub below_next : {b : Bus} → Balanced t b → 0 < (b.dispatches t).remaining → t < b.next
  below_next {b} k pos = elim (Bool-cases (ltb t b.next)) [
    | inl e ↦ ground arith
    | inr e ↦
        let free : b.dispatches t ≡ no_dispatch = k.fresh (ground arith) in
        absurd (omega (arith, ap (λ (d : Dispatch). d.remaining) free))
  ]

  -- The counts of a tracker are those of another state.
  abbrev pub Same : Bus → Bus → Type 0
  Same b c =
      (queued t c ≡ queued t b)
      × (handling t c ≡ handling t b)
      × (answered t c ≡ answered t b)
      × (replied t c ≡ replied t b)
      × (bad t c ≡ bad t b)

  Books-Same : {d : Dispatch} {b c : Bus} → Same b c → Books t d b → Books t d c
  Books-Same (q, h, a, r, f) k = record {
    left = omega (arith, q, h, k.left);
    told = omega (arith, a, r, k.told);
    spotless = λ e. f ∙ k.spotless e;
    most = k.most;
  }

  pub keep-Balanced :
      {b c : Bus}
      → c.dispatches ≡ b.dispatches
      → c.next ≡ b.next
      → Same b c
      → Balanced t b
      → Balanced t c
  keep-Balanced d n s k = record { books = rw d (Books-Same s k.books); fresh = rw (d, n) k.fresh }

  -- A step that writes the record of one tracker.
  pub put-Balanced :
      (u : ℕ) (d : Dispatch) (b c : Bus)
      → c.dispatches ≡ b.dispatches
      → c.next ≡ b.next
      → (t ≢ u → Same b c)
      → (Books u (b.dispatches u) b → Books u d c × (0 < (b.dispatches u).remaining))
      → Balanced t b
      → Balanced t (with_dispatch u d c)
  unfolding with_dispatch set_dispatch
  put-Balanced u d b c same_d same_n others here k = elim (Bool-cases (t == u)) [
    | inl e ↦
        let me : t ≡ u = (==_iff t u).0 e in
        let (books, pos) = here (subst (λ (x : ℕ). Books x (b.dispatches x) b) me k.books) in
        let low = below_next k (rw me pos) in
        record {
          books = rw e (
              Books-Same (refl, refl, refl, refl, refl)
                (subst (λ (x : ℕ). Books x d c) (sym me) books));
          fresh = λ le. absurd (omega (arith, same_n, low));
        }
    | inr e ↦
        let far : t ≢ u = λ f. cc ((==_iff t u).1 f) in
        record {
          books = rw (e, same_d) (Books-Same (others far) k.books);
          fresh = rw (e, same_d, same_n) k.fresh;
        }
  ]

  pub finalize-Balanced :
      (saves : Bool) (id : Key) (s : DispatchState) (b : Bus)
      → Balanced t b
      → Balanced t (finalize saves id s b)
  unfolding finalize
  finalize-Balanced true id s b k = keep-Balanced refl refl (refl, refl, refl, refl, refl) k
  finalize-Balanced false id s b k = k

  pub track-Balanced :
      (id : Key) (ss : List Key) (b : Bus) → Balanced t b → Balanced t (track id ss b)
  unfolding track set_dispatch
  track-Balanced id ss b k = elim (Bool-cases (t == b.next)) [
    | inl e ↦
        let new_one : t ≡ b.next = (==_iff t b.next).0 e in
        let free : b.dispatches t ≡ no_dispatch = k.fresh (omega arith) in
        let old : Books t no_dispatch b = subst (λ (d : Dispatch). Books t d b) free k.books in
        record {
          books = rw e (record {
            left = omega (arith, old.left);
            told = omega (arith, old.left, old.told);
            spotless = λ f. old.spotless refl;
            most = omega arith;
          });
          fresh = λ le. absurd (omega arith);
        }
    | inr e ↦ record {
      books = rw e (Books-Same (refl, refl, refl, refl, refl) k.books);
      fresh = λ le. rw e (k.fresh (omega arith));
    }
  ]

pub answered-le-handling : (t : ℕ) (b : Bus) → answered t b ≤ handling t b
answered-le-handling t b =
    count_where-sub (λ (h : Handling). is_for t h.delivery) (is_answer t) (λ h e. ground arith)
      b.busy
