-- ===== src/Bus/Outcome.antt =====
-- What the outcome of an event in the table tells of the subscribers.
use lexicode.Prelude.{
  ℕ, ◌+◌, ◌-◌, ◌<◌, ◌≤◌, not, length, count_where, subst, Bool, true, false, ◌&&◌, ◌||◌, List, [],
  ◌∷◌, ◌++◌, err, ◌==◌, ==_iff, ◌≡◌, refl, ◌⊎◌, inl, inr, if◌then◌else◌, arith, Bool-cases,
  Option-cases, ap, sym, ◌∙◌, any, update_where,
}
use lexicode.Domain.Words.{Key, blank, Time}
use lexicode.Domain.Rows.{Event}
use lexicode.Bus.{
  DispatchState, Row, Dispatch, Reply, Handling, Bus, is_row, set_dispatch_state, finalize, matched,
  dispatch_to, dispatch, with_row, publish, recover_next, recover, has_key, is_stopped, track,
}
use lexicode.Bus.Queues.{report, is_to, pull, with_dispatch, final_state}
use lexicode.Bus.Steps.{
  new, ◌⇝◌, ◌⇝*◌, subscribes, publishes, starts, recovers, offers, waits, abandons, takes, answers,
  reports, halts, then_step,
}
use lexicode.Bus.Tables.{
  offer-table, wait-table, abandon-table, take-table, returns-table, subscribe-table, start-table,
  after_recovery-table,
}
use lexicode.Bus.Balance.{is_for, is_bad, bad, Books, Balanced, below_next}
use lexicode.Bus.Balance.Even.{goes, times, told_by, Even}
use lexicode.Bus.Balance.Even.Steps.{⇝*-Even, new-Even}
use lexicode.Bus.Handed.{In, Addressed, Handed, appended-In, dispatch-In}
use lexicode.Bus.Handed.Leaves.{report-Leaves}
use lexicode.Bus.Handed.Steps.{⇝*-Handed, new-Handed}
use lexicode.Prelude.Lists.{All}
use lexicode.Prelude.Lists.Rows.{count_where-sub}
use lexicode.Bus.Balance.Moves.{new-Balanced, report-Balanced, ⇝*-Balanced}

abbrev pub is_done : DispatchState → Bool
is_done DispatchState.done = true
is_done _ = false

-- The event is done, by the table.
abbrev pub done_in : Key → List Row → Bool
done_in id rows = any (λ r. is_row id r && is_done r.dispatch_state) rows

set-done :
    (id other : Key) (st : DispatchState) (rows : List Row)
    → done_in id (set_dispatch_state other st rows) ≡ true
    → done_in id rows ≡ false
    → (other ≡ id) × (is_done st ≡ true)
unfolding set_dispatch_state update_where any
set-done id other st [] h k = ground arith
set-done id other st (r ∷ rows) h k = ground (arith, set-done id other st rows)

append-done :
    (id : Key) (rows : List Row) (r : Row)
    → is_done r.dispatch_state ≡ false
    → done_in id (rows ++ r ∷ []) ≡ done_in id rows
unfolding any
append-done id [] r h = ground arith
append-done id (x ∷ rows) r h = ground (arith, append-done id rows r h)

-- An event of the table with this id that no subscription matches.
pub record Unheard (id : Key) (b c : Bus) : Type 0 where
  pub of_event : Event
  pub same_id : of_event.id ≡ id
  pub stored : In of_event c.table
  pub nobody : matched of_event b ≡ []

-- The answers of a subscription for a tracker that are no errors.
abbrev pub good_of : ℕ → Key → Bus → ℕ
good_of t s c = count_where (λ r. goes t s r.delivery && r.good) c.replies

-- A tracker of this id is for the subscriptions, at least one, that matched an event of the table with that id,
-- and each of them has answered as often as it is among those, always without an error.
pub record Acked (id : Key) (c : Bus) (t : ℕ) : Type 0 where
  pub event : (c.dispatches t).event ≡ id
  pub addressed : Addressed (c.dispatches t) c
  pub asked : 0 < length (c.dispatches t).whom
  pub answered_all : (s : Key) → good_of t s c ≡ times s (c.dispatches t).whom
  pub no_errors : bad t c ≡ 0

abbrev pub Fate : Key → Bus → Bus → Type 0
Fate id b c = Unheard id b c ⊎ ((t : ℕ) × Acked id c t)

split_good :
    (t : ℕ) (s : Key) (rs : List Reply)
    → count_where (λ r. goes t s r.delivery) rs
      ≤ count_where (λ r. goes t s r.delivery && r.good) rs + count_where (is_bad t) rs
unfolding count_where
split_good t s [] = omega arith
split_good t s (r ∷ rs) = ground (arith, split_good t s rs)

good_of-le-told_by : (t : ℕ) (s : Key) (c : Bus) → good_of t s c ≤ told_by t s c
good_of-le-told_by t s c =
    count_where-sub (λ (r : Reply). goes t s r.delivery)
      (λ (r : Reply). goes t s r.delivery && r.good) (λ r e. ground arith) c.replies

times-le-length : (s : Key) (l : List Key) → times s l ≤ length l
unfolding count_where
times-le-length s [] = omega arith
times-le-length s (x ∷ xs) = ground (arith, times-le-length s xs)

-- When nothing is left to be reported and nothing failed, the good answers are all that were asked for.
all-good :
    (t : ℕ) (s : Key) (c : Bus)
    → Books t (c.dispatches t) c
    → Even t s (c.dispatches t) c
    → (c.dispatches t).remaining ≡ 0
    → bad t c ≡ 0
    → good_of t s c ≡ times s (c.dispatches t).whom
all-good t s c books even none_left clean = omega (
  arith,
  books.left,
  even.each,
  none_left,
  clean,
  split_good t s c.replies,
  good_of-le-told_by t s c,
  times-le-length s (c.dispatches t).offered,
  times-le-length s (c.dispatches t).full,
  count_where-sub (is_for t) (goes t s) (λ d e. ground arith) c.queue,
  count_where-sub (λ (h : Handling). is_for t h.delivery)
      (λ (h : Handling). goes t s h.delivery && not h.answered) (λ h e. ground arith) c.busy,
)

module _ (id : Key) where
  abbrev Explained : Bus → Bus → Type 0
  Explained b c = done_in id c.table ≡ true → done_in id b.table ≡ false → Fate id b c

  kept-Explained : (b c : Bus) → c.table ≡ b.table → Explained b c
  kept-Explained b c same h k = absurd (cc)

  finalize-done :
      (saves : Bool) (other : Key) (st : DispatchState) (b : Bus)
      → done_in id (finalize saves other st b).table ≡ true
      → done_in id b.table ≡ false
      → (other ≡ id) × (is_done st ≡ true)
  unfolding finalize
  finalize-done true other st b h k = set-done id other st b.table h k
  finalize-done false other st b h k = absurd (cc)

  -- A dispatch makes an event done at once only if no subscriber waits for it.
  dispatch-done :
      (saves : Bool) (e : Event) (b : Bus)
      → done_in id (dispatch saves e b).0.table ≡ true
      → done_in id b.table ≡ false
      → (e.id ≡ id) × (matched e b ≡ [])
  unfolding dispatch dispatch_to track
  dispatch-done saves e b h k = go b.stopped (matched e b) refl h
    where
      go :
          (x : Bool) (l : List Key)
          → matched e b ≡ l
          → done_in id (if x then (b, err is_stopped) else dispatch_to saves e b l).0.table ≡ true
          → (e.id ≡ id) × (matched e b ≡ [])
      go true l f g = absurd (cc)
      go false [] f g = ((finalize-done saves e.id DispatchState.done b g k).0, f)
      go false (s ∷ ss) f g = absurd (cc)

  publish-done :
      (inserts saves : Bool) (at : Time) (key : Key) (e : Event) (b : Bus)
      → Explained b (publish inserts saves at key e b).0
  unfolding publish matched
  publish-done false saves at key e b = λ h k. absurd (ground (arith, h, k))
  publish-done true saves at key e b = elim (Bool-cases (key == blank)) [
    | inl f ↦ rw (f, publish) (λ h k. absurd (cc))
    | inr f ↦ elim (Bool-cases (any (λ r. has_key key r || is_row e.id r) b.table)) [
      | inl g ↦ rw (f, publish) (rw g (λ h k. absurd (cc)))
      | inr g ↦
          rw (f, publish)
            (rw g (λ h k.
              let (here, nobody) =
                dispatch-done saves e (with_row at key e b) h (append-done id b.table _ refl ∙ k) in
              inl (record {
                of_event = e;
                same_id = here;
                stored = dispatch-In saves e (with_row at key e b) e (appended-In b.table _);
                nobody = nobody;
              })))
    ]
  ]

  recover-done :
      (saves : Bool) (b : Bus)
      → All (λ (r : Row). In r.event b.table) b.backlog
      → Explained b (recover saves b)
  unfolding recover recover_next matched
  recover-done saves b = go b.backlog
    where
      go :
          (l : List Row)
          → All (λ (r : Row). In r.event b.table) l
          → Explained b (recover_next saves b l)
      go [] backed h k = absurd (cc)
      go (r ∷ rs) backed h k =
          let b' : Bus = record b { backlog = rs } in
          let same = after_recovery-table (dispatch saves r.event b') in
          let (here, nobody) = dispatch-done saves r.event b' (ap (done_in id) (sym same) ∙ h) k in
          inl (record {
            of_event = r.event;
            same_id = here;
            stored = subst (In r.event) (sym same) (dispatch-In saves r.event b' r.event backed.0);
            nobody = nobody;
          })

  finalize-dispatches :
      (saves : Bool) (other : Key) (st : DispatchState) (b : Bus)
      → (finalize saves other st b).dispatches ≡ b.dispatches
  unfolding finalize
  finalize-dispatches true other st b = refl
  finalize-dispatches false other st b = refl

  outcome-done : (d : Dispatch) → is_done (final_state d) ≡ true → d.any_failed ≡ false
  outcome-done d h = ground arith

  report-done :
      (saves : Bool) (sub : Key) (b : Bus)
      → ((t : ℕ) → Balanced t b)
      → ((t : ℕ) (s : Key) → Even t s ((report saves sub b).dispatches t) (report saves sub b))
      → ((t : ℕ) → Handed t (report saves sub b))
      → Explained b (report saves sub b)
  unfolding report
  report-done saves sub b ks evens hands h k =
      elim (Option-cases (pull (λ x. is_to sub x.delivery && x.answered) b.busy)) [
        | inl f ↦ absurd (cc (rw (f, report) at h))
        | inr ((x, rest), f) ↦
            let u = x.delivery.ticket in
            let d = b.dispatches u in
            let b' =
              with_dispatch u (record d { remaining = d.remaining - 1 })
                (record b { busy = rest }) in
            elim (Bool-cases (d.remaining == 1)) [
              | inr more ↦ absurd (cc (rw more at (rw (f, report) at h)))
              | inl last ↦
                  let whole : report saves sub b ≡ finalize saves d.event (final_state d) b' =
                    rw (f, report) (rw last refl) in
                  let (event, good) =
                    finalize-done saves d.event (final_state d) b' (rw whole at h)
                      (unfold with_dispatch in k) in
                  let after : (report saves sub b).dispatches u
                      ≡ record d { remaining = d.remaining - 1 } =
                    ap (λ (y : Bus). y.dispatches u) whole
                    ∙ (ap (λ (m : ℕ → Dispatch). m u)
                          (finalize-dispatches saves d.event (final_state d) b')
                        ∙ rw ((==_iff u u).1 refl)) in
                  let one : d.remaining ≡ 1 = (==_iff d.remaining 1).0 last in
                  let expected = ap (λ (y : Dispatch). y.expected) after in
                  let remaining = ap (λ (y : Dispatch). y.remaining) after in
                  let books = (report-Balanced u saves sub b (ks u)).books in
                  let clean =
                    books.spotless
                      (ap (λ (y : Dispatch). y.any_failed) after ∙ outcome-done d good) in
                  let low = below_next u (ks u) (omega (arith, one)) in
                  let (_, _, next, _, _) = report-Leaves u saves sub b in
                  inr (
                    u,
                    record {
                      event = ap (λ (y : Dispatch). y.event) after ∙ event;
                      addressed = (hands u).addressed (subst (λ (n : ℕ). u < n) (sym next) low);
                      asked = omega (arith, one, expected, (ks u).books.most, (evens u 0).size);
                      answered_all = λ s.
                          all-good u s (report saves sub b) books (evens u s)
                            (omega (arith, one, remaining)) clean;
                      no_errors = clean;
                    },
                  )
            ]
      ]

  -- An id turns done, by a step of a bus that has come to its state somehow, only if an event of the table with
  -- that id is one that no subscription matches, or if a tracker was made for an event of the table with that id,
  -- for the subscriptions that matched it then, at least one, and each of these has answered as often as it is
  -- among them, always without an error.
  pub ⇝-Acked :
      (table : List Row) (buf_size : ℕ) (at : Time) {b c : Bus}
      → new table buf_size at ⇝* b
      → b ⇝ c
      → done_in id c.table ≡ true
      → done_in id b.table ≡ false
      → Fate id b c
  ⇝-Acked table buf_size at {b} path (subscribes name matches) =
      kept-Explained b _ (subscribe-table name matches b)
  ⇝-Acked table buf_size at {b} path (publishes inserts saves created key e) =
      publish-done inserts saves created key e b
  ⇝-Acked table buf_size at {b} path (starts lists) = kept-Explained b _ (start-table lists b)
  ⇝-Acked table buf_size at {b} path (recovers saves) =
      recover-done saves b (⇝*-Handed 0 path (new-Handed 0 table buf_size at)).backed
  ⇝-Acked table buf_size at {b} path (offers u) = kept-Explained b _ (offer-table u b)
  ⇝-Acked table buf_size at {b} path (waits u) = kept-Explained b _ (wait-table u b)
  ⇝-Acked table buf_size at {b} path (abandons u) = kept-Explained b _ (abandon-table u b)
  ⇝-Acked table buf_size at {b} path (takes sub) = kept-Explained b _ (take-table sub b)
  ⇝-Acked table buf_size at {b} path (answers sub good) =
      kept-Explained b _ (returns-table sub good b)
  ⇝-Acked table buf_size at {b} path (reports saves sub) =
      let path' = then_step path (reports saves sub) in
      report-done saves sub b (λ t. ⇝*-Balanced t path (new-Balanced t table buf_size at))
        (λ t s.
          (⇝*-Even t s path' (new-Balanced t table buf_size at) (new-Even t s table buf_size at)).1)
        (λ t. ⇝*-Handed t path' (new-Handed t table buf_size at))
  ⇝-Acked table buf_size at {b} path halts = kept-Explained b _ refl
