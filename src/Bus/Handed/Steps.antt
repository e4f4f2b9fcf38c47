-- ===== src/Bus/Handed/Steps.antt =====
-- No step of the bus changes whom a tracker is for.
use lexicode.Prelude.{
  ℕ, Bool, true, false, not, ◌&&◌, ◌||◌, List, [], ◌∷◌, ◌++◌, Result, ok, err, ◌==◌, ◌≡◌, refl, inl,
  inr, if◌then◌else◌, arith, Bool-cases, subst, sym, ◌∙◌, any, select, ltb,
}
use mathlib.Core.List.{append-nil}
use lexicode.Prelude.Lists.{All}
use lexicode.Domain.Words.{Key, blank, Time}
use lexicode.Domain.Rows.{Event}
use lexicode.Bus.{
  Row, Bus, DispatchState, is_row, set_dispatch, track, dispatch_to, dispatch, matched, with_row,
  has_key, is_stopped, start_twice, list_failed, name_taken, BusError, subscribe, publish,
  start_bus, after_recovery, recover_next, recover, awaits_dispatch,
}
use lexicode.Bus.Queues.{offer, wait, abandon, take, returns}
use lexicode.Bus.Steps.{
  new, ◌⇝◌, ◌⇝*◌, subscribes, publishes, starts, recovers, offers, waits, abandons, takes, answers,
  reports, halts, idle, then_step,
}
use lexicode.Bus.Tables.{offer-table, wait-table, abandon-table, take-table, returns-table}
use lexicode.Bus.Handed.{
  In, Addressed, Handed, append-In, appended-In, finalize-In, select-In, report-In, same-In,
}
use lexicode.Bus.Handed.Leaves.{
  offer-Leaves, wait-Leaves, abandon-Leaves, take-Leaves, returns-Leaves, finalize-Leaves,
  report-Leaves, Handed-Kept, keep-Handed,
}

module _ (t : ℕ) where
  track-Handed :
      (e : Event) (b : Bus) → In e b.table → Handed t b → Handed t (track e.id (matched e b) b)
  unfolding track set_dispatch matched
  track-Handed e b here k = elim (Bool-cases (t == b.next)) [
    | inl f ↦ record {
      addressed = λ lt. rw f (record {
        of_event = e;
        first = b.subs;
        later = [];
        stored = here;
        same_id = refl;
        subs = sym (append-nil b.subs);
        matching = refl;
      });
      backed = k.backed;
    }
    | inr f ↦ record {
      addressed = λ lt.
          let old = k.addressed (ground (arith, lt, f)) in
          rw f (record {
            of_event = old.of_event;
            first = old.first;
            later = old.later;
            stored = old.stored;
            same_id = old.same_id;
            subs = old.subs;
            matching = old.matching;
          });
      backed = k.backed;
    }
  ]

  dispatch_to-Handed :
      (saves : Bool) (e : Event) (b : Bus) (l : List Key)
      → l ≡ matched e b
      → In e b.table
      → Handed t b
      → Handed t (dispatch_to saves e b l).0
  unfolding dispatch_to
  dispatch_to-Handed saves e b [] same here k =
      keep-Handed t (finalize-In saves e.id DispatchState.done b)
        (finalize-Leaves t saves e.id DispatchState.done b) k
  dispatch_to-Handed saves e b (x ∷ xs) same here k =
      subst (λ (l : List Key). Handed t (track e.id l b)) (sym same) (track-Handed e b here k)

  dispatch-Handed :
      (saves : Bool) (e : Event) (b : Bus)
      → In e b.table
      → Handed t b
      → Handed t (dispatch saves e b).0
  unfolding dispatch
  dispatch-Handed saves e b here k =
      elim b.stopped
        as (λ x.
          Handed t (if x then (b, err is_stopped) else dispatch_to saves e b (matched e b)).0) [
            | true ↦ k
            | false ↦ dispatch_to-Handed saves e b (matched e b) refl here k
          ]

  row-Handed :
      (at : Time) (key : Key) (e : Event) (b : Bus) → Handed t b → Handed t (with_row at key e b)
  row-Handed at key e b k =
      keep-Handed t (λ x h. append-In x b.table _ h) (refl, refl, refl, refl, refl) k

  publish-Handed :
      (inserts saves : Bool) (at : Time) (key : Key) (e : Event) (b : Bus)
      → Handed t b
      → Handed t (publish inserts saves at key e b).0
  unfolding publish
  publish-Handed inserts saves at key e b k = elim (Bool-cases (key == blank)) [
    | inl f ↦ rw (f, publish) k
    | inr f ↦ elim (Bool-cases inserts) [
      | inr g ↦ rw (f, g, publish) k
      | inl g ↦ elim (Bool-cases (any (λ r. has_key key r || is_row e.id r) b.table)) [
        | inl h ↦ rw (f, g, publish) (rw h k)
        | inr h ↦
            rw (f, g, publish)
              (rw h (
                dispatch-Handed saves e (with_row at key e b) (appended-In b.table _)
                  (row-Handed at key e b k)))
      ]
    ]
  ]

  subscribe-Handed :
      (name : Key) (matches : Event → Bool) (b : Bus)
      → Handed t b
      → Handed t (subscribe name matches b).0
  unfolding subscribe
  subscribe-Handed name matches b k = elim (Bool-cases (name == blank)) [
    | inl f ↦ rw (f, subscribe) k
    | inr f ↦
        rw (f, subscribe)
          (elim b.stopped
            as (λ x.
              let r : Bus × Result BusError (Unit {0}) =
                (if x
                  then (b, err is_stopped)
                  else if any (λ s. s.name == name) b.subs
                  then (b, err name_taken)
                  else (
                    record b { subs = b.subs ++ record { name = name; wants = matches } ∷ [] },
                    ok tt,
                  )) in
              Handed t r.0) [
                | true ↦ k
                | false ↦ elim (Bool-cases (any (λ s. s.name == name) b.subs)) [
                  | inl h ↦ rw h k
                  | inr h ↦ rw h (
                      Handed-Kept t
                        (record {
                          leaves_whom = refl;
                          leaves_event = refl;
                          more = record { name = name; wants = matches } ∷ [];
                          subs = refl;
                          table = λ x there. there;
                        })
                        refl refl k)
                ]
              ])
  ]

  -- Another state of the bus with the same tables.
  again :
      (b c : Bus)
      → c.subs ≡ b.subs
      → c.table ≡ b.table
      → c.dispatches ≡ b.dispatches
      → Addressed (b.dispatches t) b
      → Addressed (c.dispatches t) c
  again b c s r d k = rw d (record {
    of_event = k.of_event;
    first = k.first;
    later = k.later;
    stored = subst (In k.of_event) (sym r) k.stored;
    same_id = k.same_id;
    subs = s ∙ k.subs;
    matching = k.matching;
  })

  start-Handed : (lists : Bool) (b : Bus) → Handed t b → Handed t (start_bus lists b).0
  unfolding start_bus
  start-Handed lists b k =
      let old = λ (r : Row). awaits_dispatch r.dispatch_state && ltb r.created_at b.booted_at in
      elim b.started
        as (λ x.
          let r : Bus × Result BusError (Unit {0}) =
            (if x
              then (b, err start_twice)
              else if not lists
              then (record b { started = true }, err list_failed)
              else (record b { started = true; backlog = select old b.table }, ok tt)) in
          Handed t r.0) [
            | true ↦ k
            | false ↦ elim (Bool-cases lists) [
              | inr g ↦ rw g (record {
                addressed = λ lt. again b _ refl refl refl (k.addressed lt);
                backed = k.backed;
              })
              | inl g ↦ rw g (record {
                addressed = λ lt. again b _ refl refl refl (k.addressed lt);
                backed = select-In old b.table;
              })
            ]
          ]

  after_recovery-Handed :
      (r : Bus × Result BusError (Unit {0})) → Handed t r.0 → Handed t (after_recovery r)
  unfolding after_recovery
  after_recovery-Handed (b, ok u) k = k
  after_recovery-Handed (b, err e) k = record {
    addressed = λ lt. again b _ refl refl refl (k.addressed lt);
    backed = tt;
  }

  recover_next-Handed :
      (saves : Bool) (b : Bus) (l : List Row)
      → l ≡ b.backlog
      → Handed t b
      → Handed t (recover_next saves b l)
  unfolding recover_next
  recover_next-Handed saves b [] same k = k
  recover_next-Handed saves b (r ∷ rs) same k =
      let b' : Bus = record b { backlog = rs } in
      let (here, rest) = subst (All (λ (x : Row). In x.event b.table)) (sym same) k.backed in
      after_recovery-Handed (dispatch saves r.event b') (
        dispatch-Handed saves r.event b' here
          (record { addressed = λ lt. again b b' refl refl refl (k.addressed lt); backed = rest }))

  ⇝-Handed : {b c : Bus} → b ⇝ c → Handed t b → Handed t c
  unfolding recover
  ⇝-Handed {b} (subscribes name matches) k = subscribe-Handed name matches b k
  ⇝-Handed {b} (publishes inserts saves at key e) k = publish-Handed inserts saves at key e b k
  ⇝-Handed {b} (starts lists) k = start-Handed lists b k
  ⇝-Handed {b} (recovers saves) k = recover_next-Handed saves b b.backlog refl k
  ⇝-Handed {b} (offers u) k =
      keep-Handed t (same-In b (offer u b) (offer-table u b)) (offer-Leaves t u b) k
  ⇝-Handed {b} (waits u) k =
      keep-Handed t (same-In b (wait u b) (wait-table u b)) (wait-Leaves t u b) k
  ⇝-Handed {b} (abandons u) k =
      keep-Handed t (same-In b (abandon u b) (abandon-table u b)) (abandon-Leaves t u b) k
  ⇝-Handed {b} (takes sub) k =
      keep-Handed t (same-In b (take sub b) (take-table sub b)) (take-Leaves t sub b) k
  ⇝-Handed {b} (answers sub good) k =
      keep-Handed t (same-In b (returns sub good b) (returns-table sub good b))
        (returns-Leaves t sub good b) k
  ⇝-Handed {b} (reports saves sub) k =
      keep-Handed t (report-In saves sub b) (report-Leaves t saves sub b) k
  ⇝-Handed {b} halts k = keep-Handed t (λ x h. h) (refl, refl, refl, refl, refl) k

  pub ⇝*-Handed : {b c : Bus} → b ⇝* c → Handed t b → Handed t c
  ⇝*-Handed idle k = k
  ⇝*-Handed (then_step path step) k = ⇝-Handed step (⇝*-Handed path k)

  pub new-Handed : (table : List Row) (buf_size : ℕ) (at : Time) → Handed t (new table buf_size at)
  new-Handed table buf_size at = record {
    addressed = λ lt. absurd (omega (arith, lt));
    backed = tt;
  }
