-- ===== src/Bus/Handed.antt =====
-- Whom an event is dispatched to: the subscriptions that matched it.
pub mod Leaves
pub mod Steps
use lexicode.Prelude.{
  ℕ, ◌<◌, Bool, true, false, not, ◌&&◌, ◌||◌, List, [], ◌∷◌, ◌++◌, Result, ok, err, ◌==◌, ==_iff,
  ◌≡◌, ◌⊎◌, refl, inl, inr, if◌then◌else◌, arith, Bool-cases, Option-cases, ap, subst, sym, ◌∙◌,
  any, select, ltb, update_where,
}
use mathlib.Core.List.{append-nil, append_assoc}
use lexicode.Prelude.Lists.{All}
use lexicode.Domain.Words.{Key, blank, Time}
use lexicode.Domain.Rows.{Event}
use lexicode.Bus.{
  Dispatch, Subscription, Row, Bus, DispatchState, is_row, set_dispatch_state, finalize,
  set_dispatch, track, dispatch_to, dispatch, sub_names, matched, with_row, has_key, is_stopped,
  start_twice, list_failed, name_taken, BusError, subscribe, publish, start_bus, after_recovery,
  recover_next, recover, awaits_dispatch,
}
use lexicode.Bus.Queues.{is_to, pull, with_dispatch, offer, wait, abandon, take, returns, report}
use lexicode.Bus.Steps.{
  new, ◌⇝◌, ◌⇝*◌, subscribes, publishes, starts, recovers, offers, waits, abandons, takes, answers,
  reports, halts, idle, then_step,
}
use lexicode.Bus.Tables.{offer-table, wait-table, abandon-table, take-table, returns-table}

-- The event of some row.
abbrev pub In : Event → List Row → Type 0
In e [] = ⊥
In e (r ∷ rows) = (r.event ≡ e) ⊎ In e rows

-- A tracker is for the subscriptions that matched its event, which is in the table, when it was made: those are
-- the first ones of the bus.
pub record Addressed (d : Dispatch) (b : Bus) : Type 0 where
  pub of_event : Event
  pub first : List Subscription
  pub later : List Subscription
  pub stored : In of_event b.table
  pub same_id : of_event.id ≡ d.event
  pub subs : b.subs ≡ first ++ later
  pub matching : d.whom ≡ sub_names (select (λ s. s.wants of_event) first)

-- What holds of a tracker, and of the rows that are still to be recovered.
pub record Handed (t : ℕ) (b : Bus) : Type 0 where
  pub addressed : t < b.next → Addressed (b.dispatches t) b
  pub backed : All (λ (r : Row). In r.event b.table) b.backlog

pub set-In :
    (e : Event) (id : Key) (st : DispatchState) (rows : List Row)
    → In e rows
    → In e (set_dispatch_state id st rows)
unfolding set_dispatch_state update_where
set-In e id st [] h = elim h [ ]
set-In e id st (r ∷ rows) (inl same) = elim (Bool-cases (is_row id r)) [
  | inl f ↦ rw f (inl same)
  | inr f ↦ rw f (inl same)
]
set-In e id st (r ∷ rows) (inr there) = inr (set-In e id st rows there)

pub append-In : (e : Event) (rows more : List Row) → In e rows → In e (rows ++ more)
append-In e [] more h = elim h [ ]
append-In e (r ∷ rows) more (inl same) = inl same
append-In e (r ∷ rows) more (inr there) = inr (append-In e rows more there)

pub appended-In : (rows : List Row) (r : Row) → In r.event (rows ++ r ∷ [])
appended-In [] r = inl refl
appended-In (x ∷ rows) r = inr (appended-In rows r)

pub finalize-In :
    (saves : Bool) (id : Key) (st : DispatchState) (b : Bus) (e : Event)
    → In e b.table
    → In e (finalize saves id st b).table
unfolding finalize
finalize-In true id st b e h = set-In e id st b.table h
finalize-In false id st b e h = h

pub dispatch-In :
    (saves : Bool) (e : Event) (b : Bus) (x : Event)
    → In x b.table
    → In x (dispatch saves e b).0.table
unfolding dispatch dispatch_to track
dispatch-In saves e b x here = go b.stopped (matched e b)
  where
    go :
        (z : Bool) (l : List Key)
        → In x (if z then (b, err is_stopped) else dispatch_to saves e b l).0.table
    go true l = here
    go false [] = finalize-In saves e.id DispatchState.done b x here
    go false (s ∷ ss) = here

pub All-In :
    (rows rows' : List Row)
    → ((e : Event) → In e rows → In e rows')
    → (l : List Row) → All (λ (r : Row). In r.event rows) l
    → All (λ (r : Row). In r.event rows') l
All-In rows rows' g [] h = tt
All-In rows rows' g (r ∷ l) h = (g r.event h.0, All-In rows rows' g l h.1)

pub select-In :
    (p : Row → Bool) (rows : List Row) → All (λ (r : Row). In r.event rows) (select p rows)
unfolding select
select-In p [] = tt
select-In p (r ∷ rows) =
    let rest = All-In rows (r ∷ rows) (λ e h. inr h) (select p rows) (select-In p rows) in
    elim (Bool-cases (p r)) [ inl f ↦ rw f (inl refl, rest) | inr f ↦ rw f rest ]

pub report-In :
    (saves : Bool) (sub : Key) (b : Bus) (e : Event)
    → In e b.table
    → In e (report saves sub b).table
unfolding report with_dispatch
report-In saves sub b e here =
    elim (Option-cases (pull (λ h. is_to sub h.delivery && h.answered) b.busy)) [
      | inl f ↦ rw (f, report) here
      | inr ((h, rest), f) ↦ elim (Bool-cases ((b.dispatches h.delivery.ticket).remaining == 1)) [
        | inl last ↦ rw (f, report) (rw last (finalize-In saves _ _ _ e here))
        | inr more ↦ rw (f, report) (rw more here)
      ]
    ]

pub same-In : (b c : Bus) → c.table ≡ b.table → (e : Event) → In e b.table → In e c.table
same-In b c same e = subst (In e) (sym same)
