-- ===== src/Bus/Balance/Even.antt =====
-- Every subscription that an event was dispatched to has its own delivery, in one place.
pub mod Filling
pub mod Steps
use lexicode.Prelude.{
  ℕ, ◌+◌, ◌-◌, ◌≤◌, Bool, true, false, not, ◌&&◌, ◌||◌, List, [], ◌∷◌, ◌++◌, Result, ok, err, ◌==◌,
  ==_iff, ◌≡◌, ◌≢◌, refl, inl, inr, if◌then◌else◌, arith, Bool-cases, Option-cases, ap, subst, sym,
  ◌∙◌, length, any, count_where,
}
use lexicode.Prelude.Lists.Rows.{count_where-sub}
use lexicode.Domain.Words.{Key, blank, Time}
use lexicode.Domain.Rows.{Event}
use lexicode.Bus.{
  Delivery, Handling, Reply, Dispatch, no_dispatch, Row, Bus, DispatchState, finalize, set_dispatch,
  track, dispatch_to, dispatch, matched, with_row, has_key, is_row, is_stopped, BusError, subscribe,
  publish, start_bus, after_recovery, recover_next, recover,
}
use lexicode.Bus.Queues.{
  is_to, pull, with_dispatch, append_item, offer, wait, abandon, take, returns, report, has_room,
}
use lexicode.Bus.Steps.{
  new, ◌⇝◌, ◌⇝*◌, subscribes, publishes, starts, recovers, offers, waits, abandons, takes, answers,
  reports, halts, idle, then_step,
}
use lexicode.Bus.Balance.{
  is_for, Balanced, pull-passes, count_where-pull, count_where-append, answered-le-handling,
}
use lexicode.Bus.Balance.Moves.{⇝-Balanced}

-- The deliveries for a tracker and a subscription: in its queue, at its handler, answered by it.
abbrev pub goes : ℕ → Key → Delivery → Bool
goes t s d = is_for t d && is_to s d

abbrev pub in_queue : ℕ → Key → Bus → ℕ
in_queue t s b = count_where (goes t s) b.queue

abbrev pub in_work : ℕ → Key → Bus → ℕ
in_work t s b = count_where (λ h. goes t s h.delivery && not h.answered) b.busy

abbrev pub told_by : ℕ → Key → Bus → ℕ
told_by t s b = count_where (λ r. goes t s r.delivery) b.replies

abbrev pub placed : ℕ → Key → Bus → ℕ
placed t s b = in_queue t s b + in_work t s b + told_by t s b

abbrev pub times : Key → List Key → ℕ
times s l = count_where (λ k. k == s) l

-- The deliveries of a tracker to a subscription are as many as it is named among those that it is for.
pub record Even (t : ℕ) (s : Key) (d : Dispatch) (b : Bus) : Type 0 where
  pub each : times s d.whom ≡ times s d.offered + times s d.full + placed t s b
  pub size : d.expected ≡ length d.whom

pub append_item-placed :
    (t : ℕ) (s : Key) (sub : Key) (u : ℕ) (b : Bus)
    → placed t s (append_item sub u b) ≡ placed t s b + (if u == t && sub == s then 1 else 0)
unfolding count_where
append_item-placed t s sub u b =
    let more = count_where-append (goes t s) b.queue (record { sub = sub; ticket = u } ∷ []) in
    ground (arith, more)

module _ (t : ℕ) (s : Key) where
  pub keep-Even :
      {b c : Bus}
      → c.dispatches ≡ b.dispatches
      → placed t s c ≡ placed t s b
      → Even t s (b.dispatches t) b
      → Even t s (c.dispatches t) c
  keep-Even d p k = record { each = rw (d, p) k.each; size = rw d k.size }

  -- A step that writes the record of one tracker.
  pub put-Even :
      (u : ℕ) (d : Dispatch) (b c : Bus)
      → c.dispatches ≡ b.dispatches
      → (t ≢ u → placed t s c ≡ placed t s b)
      → (Even u s (b.dispatches u) b → Even u s d c)
      → Even t s (b.dispatches t) b
      → Even t s ((with_dispatch u d c).dispatches t) (with_dispatch u d c)
  unfolding with_dispatch set_dispatch
  put-Even u d b c same_d others here k = elim (Bool-cases (t == u)) [
    | inl e ↦
        let me : t ≡ u = (==_iff t u).0 e in
        let even = here (subst (λ (x : ℕ). Even x s (b.dispatches x) b) me k) in
        let mine = subst (λ (x : ℕ). Even x s d c) (sym me) even in
        rw e (record { each = mine.each; size = mine.size })
    | inr e ↦
        let far : t ≢ u = λ f. cc ((==_iff t u).1 f) in
        rw (e, same_d)
          (record {
            each =
                k.each
                ∙ ap
                    (λ (n : ℕ).
                      times s (b.dispatches t).offered + times s (b.dispatches t).full + n)
                    (sym (others far));
            size = k.size;
          })
  ]

  pub finalize-Even :
      (saves : Bool) (id : Key) (st : DispatchState) (b : Bus)
      → Even t s (b.dispatches t) b
      → Even t s ((finalize saves id st b).dispatches t) (finalize saves id st b)
  unfolding finalize
  finalize-Even true id st b k = record { each = k.each; size = k.size }
  finalize-Even false id st b k = k
