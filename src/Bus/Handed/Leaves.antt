-- ===== src/Bus/Handed/Leaves.antt =====
-- The steps of the bus that leave what a tracker is for.
use lexicode.Prelude.{
  ℕ, ◌<◌, Bool, not, ◌&&◌, List, [], ◌++◌, ==_iff, ◌≡◌, refl, inl, inr, arith, Option-cases, ap,
  subst, sym, ◌∙◌,
}
use mathlib.Core.List.{append-nil, append_assoc}
use lexicode.Prelude.Lists.{All}
use lexicode.Domain.Words.{Key}
use lexicode.Domain.Rows.{Event}
use lexicode.Bus.{Subscription, Row, Bus, DispatchState, finalize, set_dispatch}
use lexicode.Bus.Queues.{is_to, pull, with_dispatch, offer, wait, abandon, take, returns, report}
use lexicode.Bus.Handed.{In, Addressed, Handed, All-In}

module _ (t : ℕ) where
  -- A step leaves all that says what a tracker is for.
  abbrev pub Leaves : Bus → Bus → Type 0
  Leaves b c =
      (c.subs ≡ b.subs)
      × (c.backlog ≡ b.backlog)
      × (c.next ≡ b.next)
      × ((c.dispatches t).whom ≡ (b.dispatches t).whom)
      × ((c.dispatches t).event ≡ (b.dispatches t).event)

  pub offer-Leaves : (u : ℕ) (b : Bus) → Leaves b (offer u b)
  unfolding offer with_dispatch set_dispatch
  offer-Leaves u b = ground (arith, ==_iff t u)

  pub wait-Leaves : (u : ℕ) (b : Bus) → Leaves b (wait u b)
  unfolding wait with_dispatch set_dispatch
  wait-Leaves u b = ground (arith, ==_iff t u)

  pub abandon-Leaves : (u : ℕ) (b : Bus) → Leaves b (abandon u b)
  unfolding abandon with_dispatch set_dispatch
  abandon-Leaves u b = ground (arith, ==_iff t u)

  pub take-Leaves : (sub : Key) (b : Bus) → Leaves b (take sub b)
  unfolding take
  take-Leaves sub b = ground arith

  pub returns-Leaves : (sub : Key) (good : Bool) (b : Bus) → Leaves b (returns sub good b)
  unfolding returns with_dispatch set_dispatch
  returns-Leaves sub good b =
      elim (Option-cases (pull (λ h. is_to sub h.delivery && not h.answered) b.busy)) [
        | inl f ↦ rw (f, returns) (refl, refl, refl, refl, refl)
        | inr ((h, rest), f) ↦ rw (f, returns) (ground (arith, ==_iff t h.delivery.ticket))
      ]

  pub finalize-Leaves :
      (saves : Bool) (id : Key) (st : DispatchState) (b : Bus) → Leaves b (finalize saves id st b)
  unfolding finalize
  finalize-Leaves saves id st b = ground arith

  pub report-Leaves : (saves : Bool) (sub : Key) (b : Bus) → Leaves b (report saves sub b)
  unfolding report with_dispatch set_dispatch finalize
  report-Leaves saves sub b =
      elim (Option-cases (pull (λ h. is_to sub h.delivery && h.answered) b.busy)) [
        | inl f ↦ rw (f, report) (refl, refl, refl, refl, refl)
        | inr ((h, rest), f) ↦ rw (f, report) (ground (arith, ==_iff t h.delivery.ticket))
      ]

  -- A step that adds subscriptions and events at most.
  pub record Kept (b c : Bus) : Type 0 where
    pub leaves_whom : (c.dispatches t).whom ≡ (b.dispatches t).whom
    pub leaves_event : (c.dispatches t).event ≡ (b.dispatches t).event
    pub more : List Subscription
    pub subs : c.subs ≡ b.subs ++ more
    pub table : (e : Event) → In e b.table → In e c.table

  Leaves-Kept : {b c : Bus} → ((e : Event) → In e b.table → In e c.table) → Leaves b c → Kept b c
  Leaves-Kept {b} g (s, l, n, w, e) = record {
    leaves_whom = w;
    leaves_event = e;
    more = [];
    subs = s ∙ sym (append-nil b.subs);
    table = g;
  }

  Addressed-Kept :
      {b c : Bus} → Kept b c → Addressed (b.dispatches t) b → Addressed (c.dispatches t) c
  Addressed-Kept kept k = record {
    of_event = k.of_event;
    first = k.first;
    later = k.later ++ kept.more;
    stored = kept.table k.of_event k.stored;
    same_id = k.same_id ∙ sym kept.leaves_event;
    subs =
        kept.subs
        ∙ (ap (λ (l : List Subscription). l ++ kept.more) k.subs
            ∙ append_assoc k.first k.later kept.more);
    matching = kept.leaves_whom ∙ k.matching;
  }

  pub Handed-Kept :
      {b c : Bus} → Kept b c → c.backlog ≡ b.backlog → c.next ≡ b.next → Handed t b → Handed t c
  Handed-Kept {b} {c} kept same n k = record {
    addressed = λ lt. Addressed-Kept kept (k.addressed (subst (λ (m : ℕ). t < m) n lt));
    backed =
        subst (λ (l : List Row). All (λ (r : Row). In r.event c.table) l) (sym same)
          (All-In b.table c.table kept.table b.backlog k.backed);
  }

  pub keep-Handed :
      {b c : Bus}
      → ((e : Event) → In e b.table → In e c.table)
      → Leaves b c
      → Handed t b
      → Handed t c
  keep-Handed g (s, l, n, w, e) = Handed-Kept (Leaves-Kept g (s, l, n, w, e)) l n
