-- ===== src/Guard/Layers/Stopped.antt =====
-- What `Evaluate` of internal/kernel/guard/layers.go does where it stops a firing.
use lexicode.Prelude.{
  subst, sym, ℕ, ◌-◌, ◌*◌, ◌≤◌, ◌<◌, ◌≡◌, ◌≢◌, refl, ◌∙◌, Bool, true, false, Bool-cases,
  Result-cases, Option-cases, inl, inr, ◌⊎◌, List, [], ◌∷◌, ◌++◌, Option, none, some, ok, err, ◌==◌,
  leb, arith,
}
use lexicode.Domain.RunState.{RunState}
use lexicode.Domain.Words.{Key, Time, Words, loop_depth, debounced_review, debounced_within}
use lexicode.Domain.Rows.{Run}
use lexicode.Store.Db.{Db, StoreError}
use lexicode.Store.Queries.{latest_on_subject, latest_for_review}
use lexicode.Sched.World.{World, SchedError}
use lexicode.Sched.Create.{LoopStoppedRun, enqueue_loop_stopped}
use lexicode.Sched.Create.Laws.{enqueue_loop_stopped-row}
use lexicode.Guard.{Config, load_config, Input, debounced, loop_stopped, Verdict, stop, terminate}
use lexicode.Guard.SkipToken.{has_skip_token, review_id_of}
use lexicode.Guard.Budget.{check_budget}
use lexicode.Guard.Chain.{chain_depth, reset_of, hop_cap}
use lexicode.Guard.Chain.Laws.{chain_depth-Chain}
use lexicode.Guard.Layers.{
  is_suppressed, probe_review, coalesce_review, debounce, absorb, record_stop, stop_loop,
  budget_layer, depth_layer, evaluate_with, evaluate,
}

-- The row that a loop stop asks for.
abbrev pub request_of : Input → (agent : Key) (depth limit : ℕ) → LoopStoppedRun
request_of in_ agent depth limit = record {
  project_id = in_.trigger.project_id;
  agent_id = agent;
  trigger_id = in_.trigger.id;
  cause_event_id = in_.event.id;
  subject_key = in_.subject_key;
  depth = depth;
  reason = loop_depth depth limit in_.subject_key;
}

record_stop-verdict :
    (new_id : Key) (now : Time) (w : World) (in_ : Input) (agent : Key) (depth limit : ℕ)
    → (run : Option Key) × ((record_stop new_id now w in_ agent depth limit).1
        ≡ terminate loop_stopped (loop_depth depth limit in_.subject_key) none run)
      × ((rid : Key)
          → run ≡ some rid
          → (row : Run) × (row.id ≡ rid)
            × (row.state ≡ RunState.loop_stopped)
            × ((record_stop new_id now w in_ agent depth limit).0.db.runs ≡ w.db.runs ++ row ∷ []))
      × (run ≡ none
          → (x : SchedError) × ((enqueue_loop_stopped new_id now w
                (request_of in_ agent depth limit)).1
              ≡ err x))
unfolding record_stop
record_stop-verdict new_id now w in_ agent depth limit =
    let req = request_of in_ agent depth limit in
    elim (Result-cases (enqueue_loop_stopped new_id now w req).1) [
      | inr (x, e) ↦ (none, rw (e, record_stop), λ rid h. absurd (cc), λ h. (x, e))
      | inl (row, e) ↦
          let made = enqueue_loop_stopped-row new_id now w req e in
          (
            some row.id,
            rw (e, record_stop),
            λ rid h. (row, ground arith, made.1, rw (e, record_stop) made.0),
            λ h. absurd (cc),
          )
    ]

-- The firing comes to the depth layer: nothing before it has ended it.
pub record Reaches (now : Time) (w : World) (in_ : Input) : Type 0 where
  pub no_skip : has_skip_token in_.payload ≡ false
  pub no_actor : is_suppressed (load_config in_.trigger.loop_config) in_ ≡ false
  pub no_debounce : absorb now w.db (load_config in_.trigger.loop_config) in_ ≡ none

evaluate-depth :
    (loop : Bool) (new_id : Key) (now : Time) (day : ℕ) (w : World) (in_ : Input)
    → Reaches now w in_
    → evaluate loop new_id now day w in_
      ≡ depth_layer loop new_id now day w (load_config in_.trigger.loop_config) in_
unfolding evaluate evaluate_with
evaluate-depth loop new_id now day w in_ reaches =
    rw (reaches.no_skip, reaches.no_actor, reaches.no_debounce, evaluate, evaluate_with) refl

-- A loop stop: the verdict, and the row that it names; it names none only if no scheduler is wired, the rule
-- runs no agent, or the row for its first agent could not be written.
pub record StopsLoop (loop : Bool) (new_id : Key) (now : Time) (w : World) (in_ : Input)
    (depth limit : ℕ) (res : World × Verdict) : Type 0 where
  pub run : Option Key
  pub verdict : res.1 ≡ terminate loop_stopped (loop_depth depth limit in_.subject_key) none run
  pub recorded :
      (rid : Key)
      → run ≡ some rid
      → (row : Run) × (row.id ≡ rid)
        × (row.state ≡ RunState.loop_stopped)
        × (res.0.db.runs ≡ w.db.runs ++ row ∷ [])
  pub unrecorded :
      run ≡ none
      → (loop ≡ false)
        ⊎ (in_.run_agent_ids ≡ [])
        ⊎ ((agent : Key) × (agents : List Key) × (x : SchedError) × (in_.run_agent_ids
              ≡ agent ∷ agents)
            × ((enqueue_loop_stopped new_id now w (request_of in_ agent depth limit)).1 ≡ err x))

stop_loop-StopsLoop :
    (loop : Bool) (new_id : Key) (now : Time) (w : World) (in_ : Input) (depth limit : ℕ)
    → StopsLoop loop new_id now w in_ depth limit (stop_loop loop new_id now w in_ depth limit)
unfolding stop_loop
stop_loop-StopsLoop false new_id now w in_ depth limit = record {
  run = none;
  verdict = refl;
  recorded = λ rid h. absurd (cc);
  unrecorded = λ h. inl refl;
}
stop_loop-StopsLoop true new_id now w in_ depth limit = go in_.run_agent_ids refl
  where
    go :
        (ids : List Key)
        → in_.run_agent_ids ≡ ids
        → StopsLoop true new_id now w in_ depth limit (elim ids [
          | [] ↦ (w, stop loop_stopped (loop_depth depth limit in_.subject_key))
          | agent ∷ agents ↦ record_stop new_id now w in_ agent depth limit
        ])
    go [] e = record {
      run = none;
      verdict = refl;
      recorded = λ rid h. absurd (cc);
      unrecorded = λ h. inr (inl e);
    }
    go (agent ∷ agents) e =
        let (run, verdict, recorded, unrecorded) =
          record_stop-verdict new_id now w in_ agent depth limit in
        record {
          run = run;
          verdict = verdict;
          recorded = recorded;
          unrecorded =
              λ h. let (x, failed) = unrecorded h in inr (inr (agent, agents, x, e, failed));
        }

-- Nothing is written, and the firing does not end as a loop stop.
abbrev pub Unstopped : World → World × Verdict → Type 0
Unstopped w res =
    (res.0 ≡ w)
    × ((why : Words) (absorbed run : Option Key) → res.1 ≢ terminate loop_stopped why absorbed run)

budget_layer-Unstopped :
    (day : ℕ) (w : World) (cfg : Config) (in_ : Input) (depth : ℕ)
    → Unstopped w (budget_layer day w cfg in_ depth)
unfolding budget_layer
budget_layer-Unstopped day w cfg in_ depth = elim (Option-cases (check_budget w.db day in_ cfg)) [
  | inl e ↦ rw (e, budget_layer) (refl, λ why absorbed run h. cc)
  | inr (reason, e) ↦ rw (e, budget_layer) (refl, λ why absorbed run h. cc)
]

debounce-debounced :
    (now : Time) (db : Db) (cfg : Config) (in_ : Input) {v : Verdict}
    → debounce now db cfg in_ ≡ some v
    → (why : Words) × (absorbed : Option Key) × (terminate debounced why absorbed none ≡ v)
unfolding debounce
debounce-debounced now db cfg in_ {v} h =
    elim (Result-cases
      (latest_on_subject db in_.trigger.id in_.subject_key (now - 1000 * cfg.debounce_seconds))) [
        | inr (x, e) ↦ absurd (cc (rw (e, debounce) at h))
        | inl (run, e) ↦ (
          debounced_within cfg.debounce_seconds run.seq in_.subject_key,
          some run.id,
          ground (arith, rw (e, debounce) at h),
        )
      ]

coalesce_review-debounced :
    (db : Db) (in_ : Input) {v : Verdict}
    → coalesce_review db in_ ≡ some v
    → (why : Words) × (absorbed : Option Key) × (terminate debounced why absorbed none ≡ v)
unfolding coalesce_review probe_review
coalesce_review-debounced db in_ {v} h = elim (Option-cases (review_id_of in_.payload)) [
  | inl e ↦ absurd (cc (rw (e, coalesce_review) at h))
  | inr (review, e) ↦ elim (Option-cases in_.event.project_id) [
    | inl f ↦ absurd (cc (rw (e, f, coalesce_review) at h))
    | inr (project, f) ↦ elim (Option-cases in_.event.subject_number) [
      | inl g ↦ absurd (cc (rw (e, f, g, coalesce_review) at h))
      | inr (number, g) ↦
          elim (Result-cases
            (latest_for_review db in_.trigger.id project in_.event.subject_kind number review)) [
              | inr (x, k) ↦ absurd (cc (rw (e, f, g, k, coalesce_review, probe_review) at h))
              | inl (run, k) ↦ (
                debounced_review review run.seq,
                some run.id,
                ground (arith, rw (e, f, g, k, coalesce_review, probe_review) at h),
              )
            ]
    ]
  ]
]

absorb-debounced :
    (now : Time) (db : Db) (cfg : Config) (in_ : Input) {v : Verdict}
    → absorb now db cfg in_ ≡ some v
    → (why : Words) × (absorbed : Option Key) × (terminate debounced why absorbed none ≡ v)
unfolding absorb
absorb-debounced now db cfg in_ {v} h = elim (Bool-cases (cfg.debounce_seconds == 0)) [
  | inl e ↦ absurd (cc (rw (e, absorb) at h))
  | inr e ↦ elim (Option-cases (coalesce_review db in_)) [
    | inl f ↦ debounce-debounced now db cfg in_ (rw (e, f, absorb) at h)
    | inr (v', f) ↦ coalesce_review-debounced db in_ (f ∙ (rw (e, f, absorb) at h))
  ]
]

module _ (loop : Bool) (new_id : Key) (now : Time) (day : ℕ) (w : World) (in_ : Input) where
  abbrev cfg : Config
  cfg = load_config in_.trigger.loop_config

  over_limit :
      {d : ℕ}
      → 0 < cfg.depth_limit
      → chain_depth w.db in_.event in_.subject_key ≡ ok d
      → cfg.depth_limit ≤ d
      → depth_layer loop new_id now day w cfg in_
        ≡ stop_loop loop new_id now w in_ d cfg.depth_limit
  unfolding depth_layer
  over_limit {d} on e le =
      let on' : (cfg.depth_limit == 0) ≡ false = ground (arith, on) in
      let deep : leb cfg.depth_limit d ≡ true = ground (arith, le) in
      rw (on', e, depth_layer) (rw deep refl)

  under_limit :
      {d : ℕ}
      → chain_depth w.db in_.event in_.subject_key ≡ ok d
      → d < cfg.depth_limit
      → Unstopped w (depth_layer loop new_id now day w cfg in_)
  unfolding depth_layer
  under_limit {d} e lt =
      let on' : (cfg.depth_limit == 0) ≡ false = ground (arith, lt) in
      let shallow : leb cfg.depth_limit d ≡ false = ground (arith, lt) in
      rw (on', e, depth_layer) (rw shallow (budget_layer-Unstopped day w cfg in_ d))

  -- A firing that comes to the depth layer, with a depth limit and a causal chain that could be walked, ends as
  -- a loop stop if the chain has reached the limit: a new last row of the table, in the terminal state
  -- loop_stopped, records it, unless no scheduler is wired, the rule runs no agent or the row could not be
  -- written. If the chain is shorter, nothing is written and the firing does not end as a loop stop.
  pub evaluate-StopsLoop :
      {d : ℕ}
      → Reaches now w in_
      → 0 < (load_config in_.trigger.loop_config).depth_limit
      → chain_depth w.db in_.event in_.subject_key ≡ ok d
      → ((load_config in_.trigger.loop_config).depth_limit ≤ d
          → StopsLoop loop new_id now w in_ d
              (load_config in_.trigger.loop_config).depth_limit
              (evaluate loop new_id now day w in_))
        × (d < (load_config in_.trigger.loop_config).depth_limit
            → Unstopped w (evaluate loop new_id now day w in_))
  evaluate-StopsLoop {d} reaches on e =
      let same = evaluate-depth loop new_id now day w in_ reaches in
      (
        λ le.
            subst (StopsLoop loop new_id now w in_ d cfg.depth_limit)
              (sym (same ∙ over_limit on e le))
              (stop_loop-StopsLoop loop new_id now w in_ d cfg.depth_limit),
        λ lt. subst (Unstopped w) (sym same) (under_limit e lt),
      )

  above_cap : {d : ℕ} → chain_depth w.db in_.event in_.subject_key ≡ ok d → d ≤ hop_cap
  unfolding chain_depth
  above_cap {d} deep = elim (Result-cases (reset_of w.db in_.event)) [
    | inl (at, r) ↦ (chain_depth-Chain w.db in_.event in_.subject_key at r deep).0
    | inr (x, r) ↦ absurd (cc (rw (r, chain_depth) at deep))
  ]

  unwalked :
      {x : StoreError}
      → hop_cap < cfg.depth_limit
      → chain_depth w.db in_.event in_.subject_key ≡ err x
      → Unstopped w (depth_layer loop new_id now day w cfg in_)
  unfolding depth_layer
  unwalked above e =
      let on : (cfg.depth_limit == 0) ≡ false = ground (arith, above) in
      rw (on, e, depth_layer) (budget_layer-Unstopped day w cfg in_ 0)

  -- With a depth limit above the cap of the walk no firing ends as a loop stop, whatever the chain, and
  -- nothing is written.
  pub evaluate-over_cap :
      hop_cap < (load_config in_.trigger.loop_config).depth_limit
      → Unstopped w (evaluate loop new_id now day w in_)
  unfolding evaluate evaluate_with
  evaluate-over_cap above = elim (Bool-cases (has_skip_token in_.payload)) [
    | inl e ↦ rw (e, evaluate, evaluate_with) (refl, λ why absorbed run h. cc)
    | inr e ↦ elim (Bool-cases (is_suppressed cfg in_)) [
      | inl f ↦ rw (e, f, evaluate, evaluate_with) (refl, λ why absorbed run h. cc)
      | inr f ↦ elim (Option-cases (absorb now w.db cfg in_)) [
        | inr (v, g) ↦
            let (why', absorbed', is) = absorb-debounced now w.db cfg in_ g in
            rw (e, f, g, evaluate, evaluate_with) (refl, λ why absorbed run h. cc (is, h))
        | inl g ↦
            subst (Unstopped w)
              (sym (
                evaluate-depth loop new_id now day w in_
                  (record { no_skip = e; no_actor = f; no_debounce = g })))
              (elim (Result-cases (chain_depth w.db in_.event in_.subject_key)) [
                | inl (d, k) ↦ under_limit k (omega (arith, above, above_cap k))
                | inr (x, k) ↦ unwalked above k
              ])
      ]
    ]
  ]
