-- ===== src/Guard/Chain/Laws.antt =====
-- The walk of `chainDepth` against the causal chain, described on its own.
use lexicode.Prelude.{
  subst, ℕ, zero, suc, ◌+◌, ◌≤◌, ◌≡◌, true, false, Option, some, ok, arith, Bool-cases,
  Option-cases, Result-cases, inl, inr,
}
use lexicode.Domain.Words.{Key, Time}
use lexicode.Domain.Rows.{Run, Event}
use lexicode.Store.Db.{Db, event_by_id}
use lexicode.Store.Runs.{by_id}
use lexicode.Guard.Chain.{hop_cap, is_reset, is_hop, climb, reset_of, chain_depth}

module _ (db : Db) (reset_at : Option Time) (subject : Key) where
  -- The event was caused by a run that counts, after the last human action on the subject.
  pub data Caused (ev : Event) (run : Run) : Type 0 where
    caused :
        (rid : Key)
        → is_reset reset_at ev ≡ false
        → ev.cause_run_id ≡ some rid
        → by_id db rid ≡ ok run
        → is_hop subject run ≡ true
        → Caused ev run

  -- At least so many runs that count stand one above the other over the event.
  pub data Chain : Event → ℕ → Type 0 where
    root : {ev : Event} → Chain ev 0
    top : {ev : Event} (run : Run) → Caused ev run → Chain ev 1
    hop :
        {ev : Event} {n : ℕ} (run : Run) (eid : Key) (parent : Event)
        → Caused ev run
        → run.cause_event_id ≡ some eid
        → event_by_id db eid ≡ ok parent
        → Chain parent n
        → Chain ev (suc n)

  -- What a climb that answers did above a run that counts.
  data AboveRun (hops : ℕ) (ev : Event) (depth d : ℕ) (run : Run) : Type 0 where
    last : d ≡ suc depth → AboveRun hops ev depth d run
    more :
        (eid : Key) (parent : Event)
        → run.cause_event_id ≡ some eid
        → event_by_id db eid ≡ ok parent
        → climb hops db reset_at subject parent (suc depth) ≡ ok d
        → AboveRun hops ev depth d run

  -- What a climb that answers did first.
  data FirstHop (hops : ℕ) (ev : Event) (depth d : ℕ) : Type 0 where
    halt : d ≡ depth → FirstHop hops ev depth d
    onward : (run : Run) → Caused ev run → AboveRun hops ev depth d run → FirstHop hops ev depth d

  climb-run :
      (hops : ℕ) (ev : Event) (depth : ℕ) {d : ℕ} (run : Run)
      → Caused ev run
      → climb (suc hops) db reset_at subject ev depth ≡ ok d
      → AboveRun hops ev depth d run
  unfolding climb
  climb-run hops ev depth run (caused rid fresh by found counts) h =
      elim (Option-cases run.cause_event_id) [
        | inl e ↦ last (cc (rw (fresh, by, found, counts, e, climb) at h))
        | inr (eid, e) ↦ elim (Result-cases (event_by_id db eid)) [
          | inr (x, f) ↦ absurd (cc (rw (fresh, by, found, counts, e, f, climb) at h))
          | inl (parent, f) ↦ more eid parent e f (rw (fresh, by, found, counts, e, f, climb) at h)
        ]
      ]

  climb-first :
      (hops : ℕ) (ev : Event) (depth : ℕ) {d : ℕ}
      → climb (suc hops) db reset_at subject ev depth ≡ ok d
      → FirstHop hops ev depth d
  unfolding climb
  climb-first hops ev depth {d} h = elim (Bool-cases (is_reset reset_at ev)) [
    | inl e ↦ halt (cc (rw (e, climb) at h))
    | inr fresh ↦ elim (Option-cases ev.cause_run_id) [
      | inl e ↦ halt (cc (rw (fresh, e, climb) at h))
      | inr (rid, by) ↦ elim (Result-cases (by_id db rid)) [
        | inr (x, e) ↦ absurd (cc (rw (fresh, by, e, climb) at h))
        | inl (run, found) ↦ elim (Bool-cases (is_hop subject run)) [
          | inr e ↦ halt (cc (rw (fresh, by, found, e, climb) at h))
          | inl counts ↦
              onward run (caused rid fresh by found counts)
                (climb-run hops ev depth run (caused rid fresh by found counts) h)
        ]
      ]
    ]
  ]

  -- The depth found is that of a chain, and within the cap.
  climb-Chain :
      (hops : ℕ) (ev : Event) (depth : ℕ) {d : ℕ}
      → climb hops db reset_at subject ev depth ≡ ok d
      → (n : ℕ) × (d ≡ depth + n) × (n ≤ hops) × Chain ev n
  climb-Chain zero ev depth h = unfold climb in (0, ground arith, omega arith, root)
  climb-Chain (suc hops) ev depth {d} h =
      go (climb-first hops ev depth h) (λ parent k. climb-Chain hops parent (suc depth) {d = d} k)
    where
      go :
          FirstHop hops ev depth d
          → ((parent : Event)
              → climb hops db reset_at subject parent (suc depth) ≡ ok d
              → (n : ℕ) × (d ≡ suc depth + n) × (n ≤ hops) × Chain parent n)
          → (n : ℕ) × (d ≡ depth + n) × (n ≤ suc hops) × Chain ev n
      go (halt e) ih = (0, omega arith, omega arith, root)
      go (onward run c (last e)) ih = (1, omega arith, omega arith, top run c)
      go (onward run c (more eid parent e f k)) ih =
          let (n, e', le, ch) = ih parent k in
          (suc n, omega arith, omega arith, hop run eid parent c e f ch)

  climb-ge :
      (hops : ℕ) (ev : Event) (depth : ℕ) {d : ℕ}
      → climb hops db reset_at subject ev depth ≡ ok d
      → depth ≤ d
  climb-ge hops ev depth h = let (n, e, le, ch) = climb-Chain hops ev depth h in omega arith

  -- No chain within the cap is deeper than the depth found.
  Chain-climb :
      {ev : Event} {n : ℕ} (hops depth : ℕ) {d : ℕ}
      → Chain ev n
      → n ≤ hops
      → climb hops db reset_at subject ev depth ≡ ok d
      → depth + n ≤ d
  unfolding climb
  Chain-climb {ev} hops depth root le h = omega (arith, climb-ge hops ev depth h)
  Chain-climb zero depth (top run c) le h = absurd (omega arith)
  Chain-climb {ev} (suc hops) depth {d} (top run c) le h = go (climb-run hops ev depth run c h)
    where
      go : AboveRun hops ev depth d run → depth + 1 ≤ d
      go (last e) = omega arith
      go (more eid parent e f k) = omega (arith, climb-ge hops parent (suc depth) k)
  Chain-climb zero depth (hop run eid parent c e f ch) le h = absurd (omega arith)
  Chain-climb {ev} (suc hops) depth (hop run eid parent (caused rid fresh by found counts) e f ch)
        le h =
      omega (
        arith,
        Chain-climb hops (suc depth) ch (omega arith)
            (rw (fresh, by, found, counts, e, f, climb) at h),
      )

-- The depth that layer 4 finds is the length of the longest causal chain over the event, as far as
-- the cap: there is a chain of that length, and none within the cap is longer.
pub chain_depth-Chain :
    (db : Db) (ev : Event) (subject : Key) (reset_at : Option Time) {d : ℕ}
    → reset_of db ev ≡ ok reset_at
    → chain_depth db ev subject ≡ ok d
    → (d ≤ hop_cap)
      × Chain db reset_at subject ev d
      × ((n : ℕ) → n ≤ hop_cap → Chain db reset_at subject ev n → n ≤ d)
unfolding chain_depth
chain_depth-Chain db ev subject reset_at {d} r h =
    let climbed : climb hop_cap db reset_at subject ev 0 ≡ ok d = rw (r, chain_depth) at h in
    let (n, e, le, ch) = climb-Chain db reset_at subject hop_cap ev 0 climbed in
    let same : n ≡ d = omega arith in
    (
      omega arith,
      subst (Chain db reset_at subject ev) same ch,
      λ m le' ch'. omega (arith, Chain-climb db reset_at subject hop_cap 0 ch' le' climbed),
    )
