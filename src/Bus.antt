-- ===== src/Bus.antt =====
-- internal/kernel/bus/bus.go: events are written down, then handed to the subscribers. The goroutines of
-- publishers and subscribers are cut where they meet: each function here and in Queues.antt is what one of
-- them does between two such points, and Steps.antt says in which orders they may come.
pub mod Queues
pub mod Steps
pub mod Tables
pub mod Once
pub mod Balance
pub mod Handed
pub mod Outcome
use lexicode.Prelude.{
  ℕ, zero, suc, ◌+◌, ◌-◌, Bool, true, false, not, ◌&&◌, ◌||◌, List, [], ◌∷◌, ◌++◌, Option, none,
  some, Result, ok, err, ◌==◌, ltb, if◌then◌else◌, length, any, select, first_where, count_where,
  update_where,
}
use lexicode.Domain.Words.{Key, blank, Time}
use lexicode.Domain.Rows.{Event}

pub data DispatchState : Type 0 where
  pending done failed : DispatchState

-- A row of `events`, with the columns that only the bus reads beside the event.
pub record Row : Type 0 where
  pub event : Event
  pub dedupe_key : Key
  pub dispatch_state : DispatchState
  pub created_at : Time

-- `subscription`; its queue is the entries of `Bus.queue` with its name, in their order.
pub record Subscription : Type 0 where
  pub name : Key
  pub wants : Event → Bool

-- `item`, in a queue or at a handler: `ticket` stands for its tracker.
pub record Delivery : Type 0 where
  pub sub : Key
  pub ticket : ℕ

-- A delivery that a handler works on, or has answered and not reported yet.
pub record Handling : Type 0 where
  pub delivery : Delivery
  pub answered : Bool

-- What a handler answered: `good` is a nil error.
pub record Reply : Type 0 where
  pub delivery : Delivery
  pub good : Bool

-- `tracker`, with the publisher that fills the queues for it: `offered` are the subscriptions that it has not
-- come to, `full` those whose queue had no room. `whom` are
-- the subscriptions that it is for, `expected` is what `remaining` started from.
pub record Dispatch : Type 0 where
  pub event : Key
  pub whom : List Key
  pub expected : ℕ
  pub remaining : ℕ
  pub any_failed : Bool
  pub offered : List Key
  pub full : List Key
  pub abandoned : Bool

abbrev pub no_dispatch : Dispatch
no_dispatch = record {
  event = blank;
  whom = [];
  expected = 0;
  remaining = 0;
  any_failed = false;
  offered = [];
  full = [];
  abandoned = false;
}

-- `Bus`, with the table of events. The trackers are numbered, `next` is the first free number; `replies`
-- are the calls of handlers that have returned, and `backlog` is what `Start` has still to dispatch.
pub record Bus : Type 0 where
  pub table : List Row
  pub subs : List Subscription
  pub queue : List Delivery
  pub busy : List Handling
  pub dispatches : ℕ → Dispatch
  pub next : ℕ
  pub replies : List Reply
  pub backlog : List Row
  pub buf_size : ℕ
  pub booted_at : Time
  pub started : Bool
  pub stopped : Bool

pub data BusError : Type 0 where
  no_dedupe_key duplicate persist is_stopped start_twice no_name name_taken list_failed : BusError

abbrev pub is_row : Key → Row → Bool
is_row id r = r.event.id == id

abbrev pub has_key : Key → Row → Bool
has_key key r = r.dedupe_key == key

-- `SetDispatchState`
unfoldable pub set_dispatch_state : Key → DispatchState → List Row → List Row
unfolding update_where
set_dispatch_state id state rows =
    update_where (is_row id) (λ r. record r { dispatch_state = state }) rows

-- `finalize`: a write that fails is logged.
unfoldable pub finalize : (saves : Bool) → Key → DispatchState → Bus → Bus
unfolding set_dispatch_state
finalize saves id state b =
    if saves then record b { table = set_dispatch_state id state b.table } else b

-- `subscribe`
unfoldable pub subscribe : Key → (Event → Bool) → Bus → Bus × Result BusError (Unit {0})
unfolding any
subscribe name matches b =
    if name == blank
    then (b, err no_name)
    else if b.stopped
    then (b, err is_stopped)
    else if any (λ s. s.name == name) b.subs
    then (b, err name_taken)
    else (record b { subs = b.subs ++ record { name = name; wants = matches } ∷ [] }, ok tt)

unfoldable pub sub_names : List Subscription → List Key
sub_names [] = []
sub_names (s ∷ ss) = s.name ∷ sub_names ss

unfoldable pub matched : Event → Bus → List Key
unfolding select sub_names
matched e b = sub_names (select (λ s. s.wants e) b.subs)

unfoldable pub set_dispatch : ℕ → Dispatch → (ℕ → Dispatch) → ℕ → Dispatch
set_dispatch t d m u = if u == t then d else m u

-- A new tracker, with its publisher at the start.
unfoldable pub track : Key → List Key → Bus → Bus
unfolding set_dispatch
track id subs b = record b {
  dispatches =
      set_dispatch b.next
        (record no_dispatch {
          event = id;
          whom = subs;
          expected = length subs;
          remaining = length subs;
          offered = subs;
        })
        b.dispatches;
  next = suc b.next;
}

-- An event that nobody waits for is done.
unfoldable pub dispatch_to :
    (saves : Bool) → Event → Bus → List Key → Bus × Result BusError (Unit {0})
unfolding track finalize
dispatch_to saves e b [] = (finalize saves e.id done b, ok tt)
dispatch_to saves e b (s ∷ ss) = (track e.id (s ∷ ss) b, ok tt)

-- `dispatch`, up to the first queue.
unfoldable pub dispatch : (saves : Bool) → Event → Bus → Bus × Result BusError (Unit {0})
unfolding matched dispatch_to
dispatch saves e b = if b.stopped then (b, err is_stopped) else dispatch_to saves e b (matched e b)

-- `Insert`, as pending.
abbrev pub with_row : (created_at : Time) (key : Key) → Event → Bus → Bus
with_row created_at key e b = record b {
  table =
      b.table
      ++ record { event = e; dedupe_key = key; dispatch_state = pending; created_at = created_at }
        ∷ [];
}

-- `Publish` of an event whose defaults are filled in, with its key: `inserts` says that the INSERT does not
-- fail for another reason than a UNIQUE constraint.
unfoldable pub publish :
    (inserts saves : Bool) (created_at : Time) (key : Key)
    → Event
    → Bus
    → Bus × Result BusError (Unit {0})
unfolding any dispatch
publish inserts saves created_at key e b =
    if key == blank
    then (b, err no_dedupe_key)
    else if not inserts
    then (b, err persist)
    else if any (λ r. has_key key r || is_row e.id r) b.table
    then (b, err duplicate)
    else dispatch saves e (with_row created_at key e b)

-- `Emit` derives the key of an internal event from its id; `key_of` is that text.
unfoldable pub emit :
    (inserts saves : Bool) (created_at : Time) (key_of : Key → Key) (key : Key)
    → Event
    → Bus
    → Bus × Result BusError (Unit {0})
unfolding publish
emit inserts saves created_at key_of key e b =
    publish inserts saves created_at (if key == blank then key_of e.id else key) e b

abbrev pub awaits_dispatch : DispatchState → Bool
awaits_dispatch pending = true
awaits_dispatch _ = false

-- `Start`: the rows that a previous process left pending, which are then dispatched one after another;
-- `lists` says that the query for them succeeds, in the order of their times.
unfoldable pub start_bus : (lists : Bool) → Bus → Bus × Result BusError (Unit {0})
unfolding select
start_bus lists b =
    if b.started
    then (b, err start_twice)
    else if not lists
    then (record b { started = true }, err list_failed)
    else (
      record b {
        started = true;
        backlog =
            select (λ r. awaits_dispatch r.dispatch_state && ltb r.created_at b.booted_at) b.table;
      },
      ok tt,
    )

-- An error ends the loop of `Start`.
unfoldable pub after_recovery : Bus × Result BusError (Unit {0}) → Bus
after_recovery (b, ok u) = b
after_recovery (b, err e) = record b { backlog = [] }

-- The next round of that loop.
unfoldable pub recover_next : (saves : Bool) → Bus → List Row → Bus
unfolding dispatch after_recovery
recover_next saves b [] = b
recover_next saves b (r ∷ rs) = after_recovery (dispatch saves r.event (record b { backlog = rs }))

unfoldable pub recover : (saves : Bool) → Bus → Bus
unfolding recover_next
recover saves b = recover_next saves b b.backlog
