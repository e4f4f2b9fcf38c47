-- ===== src/Triggers/Engine/Once.antt =====
-- One firing for each trigger and event: the idempotency of internal/service/triggers/engine.go.
use lexicode.Prelude.{
  ℕ, ◌<◌, ◌≡◌, refl, sym, ◌∙◌, ap, subst, Bool, true, false, ◌||◌, List, [], ◌∷◌, Option, any,
  count_where, All, Bool-cases, inl, inr, ◌⊎◌, arith,
}
use lexicode.Domain.Words.{Key, Time}
use lexicode.Domain.Payload.{Text, Json}
use lexicode.Domain.Rows.{Event}
use lexicode.Sched.World.{World}
use lexicode.Guard.{Verdict, proceed, terminate}
use lexicode.Triggers.Conditions.{eval_conditions}
use lexicode.Triggers.Match.{match_stage}
use lexicode.Triggers.Template.{Warning}
use lexicode.Triggers.Firing.{
  Rule, Firing, FiringOutcome, Step, read_enabled, read_exists, write_firing, Pipeline, is_firing,
  write_outcome, when_of,
}
use lexicode.Triggers.Actions.{Execute}
use lexicode.Triggers.Engine.{decided, enabled_rules, guarded, fire, fire_each, process}
use lexicode.Triggers.Engine.Written.{
  Wrote, FiredOnce, any-append, same-Wrote, write_outcome-Wrote, write_outcome-any, Wrote-FiredOnce,
}

module _ (path_match : Text → Text → Option Bool) (action : Key → Option Execute)
    (subject : Event → Json → Key) (firing_id run_id : Rule → Key) (now : Time) (day : ℕ) where
  after : (tr : Rule) (ev : Event) (m : Pipeline) → Pipeline
  after = fire path_match action subject firing_id run_id now day

  -- Stages 3 and 4 end in one recorded outcome.
  Recorded : Rule → Event → Pipeline → Pipeline → Type 0
  Recorded tr ev m m' =
      (w : World) × (res : FiringOutcome) × (ws : List Warning) × (m'
        ≡ write_outcome (firing_id tr) now tr ev (record m { world = w }) res ws)

  decided-Recorded :
      (tr : Rule) (ev : Event) (m : Pipeline) (w : World) (v : Verdict)
      → Recorded tr ev m (decided path_match action subject firing_id run_id now day tr ev m w v)
  unfolding decided Recorded
  decided-Recorded tr ev m w (terminate o reason absorbed run) = (_, _, _, refl)
  decided-Recorded tr ev m w (proceed pass) = (_, _, _, refl)

  Recorded-Wrote :
      (tr : Rule) (ev : Event) (m m' : Pipeline) → Recorded tr ev m m' → Wrote tr.id ev.id m m'
  unfolding Recorded
  Recorded-Wrote tr ev m m' (w, res, ws, e) =
      let wrote = write_outcome-Wrote (firing_id tr) now tr ev (record m { world = w }) res ws in
      rw e (record { rules = wrote.rules; down = wrote.down; firings = wrote.firings })

  Recorded-any :
      (tr : Rule) (ev : Event) (m m' : Pipeline)
      → m.down (write_firing tr.id) ≡ false
      → Recorded tr ev m m'
      → any (is_firing tr.id ev.id) m'.firings ≡ true
  unfolding Recorded
  Recorded-any tr ev m m' up (w, res, ws, e) =
      rw e (write_outcome-any (firing_id tr) now tr ev (record m { world = w }) res ws up)

  -- A firing leaves the tables as they are, or it records one outcome.
  fire-cases :
      (tr : Rule) (ev : Event) (m : Pipeline)
      → ((after tr ev m ≡ m)
          × (match_stage path_match (when_of tr) ev ev.payload ≡ true
              → m.down (read_exists tr.id) ≡ false
              → any (is_firing tr.id ev.id) m.firings ≡ true))
        ⊎ Recorded tr ev m (after tr ev m)
  unfolding fire guarded after
  fire-cases tr ev m = elim (Bool-cases (match_stage path_match (when_of tr) ev ev.payload)) [
    | inr away ↦ inl (rw (away, fire) refl, λ h. absurd (cc))
    | inl here ↦
        elim (Bool-cases (m.down (read_exists tr.id) || any (is_firing tr.id ev.id) m.firings)) [
          | inl old ↦ inl (rw (here, fire) (rw old refl), λ h up. ground (arith, old))
          | inr new ↦ inr (elim (Bool-cases (eval_conditions path_match tr.conditions ev.payload)) [
            | inl e ↦ rw (here, fire) (rw (new, e) (decided-Recorded tr ev m _ _))
            | inr e ↦ rw (here, fire) (rw (new, e) (unfold Recorded in (m.world, _, _, refl)))
          ])
        ]
  ]

  -- The rule does not match the event, or its firing of the event is recorded.
  Settled : Event → Pipeline → Rule → Type 0
  Settled ev m tr =
      (match_stage path_match (when_of tr) ev ev.payload ≡ false)
      ⊎ (any (is_firing tr.id ev.id) m.firings ≡ true)

  fire-Wrote : (tr : Rule) (ev : Event) (m : Pipeline) → Wrote tr.id ev.id m (after tr ev m)
  fire-Wrote tr ev m = elim (fire-cases tr ev m) [
    | inl (same, r) ↦ rw same (same-Wrote tr.id ev.id m)
    | inr r ↦ Recorded-Wrote tr ev m (after tr ev m) r
  ]

  fire-Settled :
      (tr : Rule) (ev : Event) (m : Pipeline)
      → ((s : Step) → m.down s ≡ false)
      → Settled ev (after tr ev m) tr
  unfolding Settled
  fire-Settled tr ev m up = elim (Bool-cases (match_stage path_match (when_of tr) ev ev.payload)) [
    | inr away ↦ inl away
    | inl here ↦ inr (elim (fire-cases tr ev m) [
      | inl (same, found) ↦ rw same (found here (up (read_exists tr.id)))
      | inr r ↦ Recorded-any tr ev m (after tr ev m) (up (write_firing tr.id)) r
    ])
  ]

  Wrote-any :
      (trigger event : Key) (p : Firing → Bool) (m m' : Pipeline)
      → Wrote trigger event m m'
      → any p m.firings ≡ true
      → any p m'.firings ≡ true
  Wrote-any trigger event p m m' w h = elim w.firings [
    | inl same ↦ rw same h
    | inr (f, by, of, fresh, grown) ↦ rw (grown, any-append p m.firings, h) refl
  ]

  -- What a walk over rules keeps.
  record Kept (m m' : Pipeline) : Type 0 where
    rules : m'.rules ≡ m.rules
    down : m'.down ≡ m.down
    firings : (p : Firing → Bool) → any p m.firings ≡ true → any p m'.firings ≡ true
    once : FiredOnce m → FiredOnce m'

  all_after : List Rule → Event → Pipeline → Pipeline
  all_after = fire_each path_match action subject firing_id run_id now day

  fire_each-Kept : (trs : List Rule) (ev : Event) (m : Pipeline) → Kept m (all_after trs ev m)
  unfolding fire_each after all_after
  fire_each-Kept [] ev m = record { rules = refl; down = refl; firings = λ p h. h; once = λ h. h }
  fire_each-Kept (tr ∷ trs) ev m =
      let w = fire-Wrote tr ev m in
      let k = fire_each-Kept trs ev (after tr ev m) in
      record {
        rules = k.rules ∙ w.rules;
        down = k.down ∙ w.down;
        firings = λ p h. k.firings p (Wrote-any tr.id ev.id p m (after tr ev m) w h);
        once = λ h. k.once (Wrote-FiredOnce tr.id ev.id m (after tr ev m) w h);
      }

  Kept-Settled :
      (ev : Event) (m m' : Pipeline) (tr : Rule) → Kept m m' → Settled ev m tr → Settled ev m' tr
  unfolding Settled
  Kept-Settled ev m m' tr k (inl away) = inl away
  Kept-Settled ev m m' tr k (inr found) = inr (k.firings (is_firing tr.id ev.id) found)

  fire_each-Settled :
      (trs : List Rule) (ev : Event) (m : Pipeline)
      → ((s : Step) → m.down s ≡ false)
      → All (Settled ev (all_after trs ev m)) trs
  unfolding fire_each after all_after
  fire_each-Settled [] ev m up = tt
  fire_each-Settled (tr ∷ trs) ev m up = (
    Kept-Settled ev (after tr ev m) (all_after trs ev (after tr ev m)) tr
        (fire_each-Kept trs ev (after tr ev m)) (fire-Settled tr ev m up),
    fire_each-Settled trs ev (after tr ev m)
        (λ s. subst (λ (d : Step → Bool). d s ≡ false) (sym (fire-Wrote tr ev m).down) (up s)),
  )

  fire-again : (tr : Rule) (ev : Event) (m : Pipeline) → Settled ev m tr → after tr ev m ≡ m
  unfolding fire after Settled
  fire-again tr ev m (inl away) = rw (away, fire) refl
  fire-again tr ev m (inr found) = ground (arith, found)

  fire_each-again :
      (trs : List Rule) (ev : Event) (m : Pipeline)
      → All (Settled ev m) trs
      → all_after trs ev m ≡ m
  unfolding fire_each after all_after
  fire_each-again [] ev m settled = refl
  fire_each-again (tr ∷ trs) ev m settled =
      rw (fire-again tr ev m settled.0) (fire_each-again trs ev m settled.1)

module _ (path_match : Text → Text → Option Bool) (action : Key → Option Execute)
    (subject : Event → Json → Key) (firing_id run_id : Rule → Key) (now : Time) (day : ℕ)
    (project : Key) (ev : Event) (m : Pipeline) where
  process-up :
      m.down read_enabled ≡ false
      → process path_match action subject firing_id run_id now day project ev m
        ≡ all_after path_match action subject firing_id run_id now day
            (enabled_rules project m)
            ev
            m
  unfolding process all_after
  process-up up = rw (up, process) refl

enabled_rules-eq :
    (project : Key) (m m' : Pipeline)
    → m'.rules ≡ m.rules
    → enabled_rules project m' ≡ enabled_rules project m
unfolding enabled_rules
enabled_rules-eq project m m' e = rw e refl

any-count : (p : Firing → Bool) (fs : List Firing) → any p fs ≡ true → 0 < count_where p fs
unfolding any count_where
any-count p [] h = cc
any-count p (f ∷ fs) h = ground (arith, any-count p fs)

All-map :
    {A : Type 0} (P Q : A → Type 0) (xs : List A) → ((x : A) → P x → Q x) → All P xs → All Q xs
All-map P Q [] f h = tt
All-map P Q (x ∷ xs) f h = (f x h.0, All-map P Q xs f h.1)

module _ (path_match : Text → Text → Option Bool) (action : Key → Option Execute)
    (subject : Event → Json → Key) (firing_id run_id : Rule → Key) (now : Time) (day : ℕ)
    (project : Key) (ev : Event) (m : Pipeline) where
  processed : Pipeline → Pipeline
  processed = process path_match action subject firing_id run_id now day project ev

  walked :
      Kept path_match action subject firing_id run_id now day m (
        all_after path_match action subject firing_id run_id now day (enabled_rules project m) ev m)
  walked =
      fire_each-Kept path_match action subject firing_id run_id now day (enabled_rules project m) ev
        m

  all_again :
      ((s : Step) → m.down s ≡ false)
      → let done =
          all_after path_match action subject firing_id run_id now day
            (enabled_rules project m)
            ev
            m in
        process path_match action subject firing_id run_id now day project ev done ≡ done
  all_again up =
      let done =
        all_after path_match action subject firing_id run_id now day (enabled_rules project m) ev
          m in
      let settled =
        fire_each-Settled path_match action subject firing_id run_id now day
          (enabled_rules project m) ev m up in
      process-up path_match action subject firing_id run_id now day project ev done
        (ap (λ (d : Step → Bool). d read_enabled) walked.down ∙ up read_enabled)
      ∙ ap
          (λ (trs : List Rule).
            all_after path_match action subject firing_id run_id now day trs ev done)
          (enabled_rules-eq project m done walked.rules)
      ∙ fire_each-again path_match action subject firing_id run_id now day (enabled_rules project m)
          ev done settled

  -- Where no event has two firings of one trigger before, none has after `process`, whatever the
  -- statements and the actions do.
  pub process-FiredOnce :
      FiredOnce m
      → FiredOnce (process path_match action subject firing_id run_id now day project ev m)
  unfolding processed process count_where
  process-FiredOnce once = elim (Bool-cases (m.down read_enabled)) [
    | inl e ↦ rw (e, process) once
    | inr up ↦
        rw (process-up path_match action subject firing_id run_id now day project ev m up)
          (walked.once once)
  ]

  -- Every enabled trigger of the project that the event matches ends up with exactly one firing of it,
  -- whatever the outcome, if no event had two firings of one trigger before and the engine's own
  -- statements go through.
  pub process-one :
      FiredOnce m
      → ((s : Step) → m.down s ≡ false)
      → All
          (λ (tr : Rule).
            match_stage path_match (when_of tr) ev ev.payload ≡ true
            → count_where
                (is_firing tr.id ev.id)
                (process path_match action subject firing_id run_id now day project ev m).firings
              ≡ 1)
          (enabled_rules project m)
  unfolding processed Settled
  process-one once up =
      rw
        (process-up path_match action subject firing_id run_id now day project ev m
          (up read_enabled))
        (All-map _ _ (enabled_rules project m)
          (λ tr settled here. elim settled [
            | inl away ↦ absurd (cc)
            | inr found ↦
                omega
                  (arith, any-count (is_firing tr.id ev.id) _ found, walked.once once tr.id ev.id)
          ])
          (fire_each-Settled path_match action subject firing_id run_id now day
            (enabled_rules project m) ev m up))

  -- Where the engine's own statements go through, an event that is delivered again changes nothing: no
  -- action runs a second time.
  pub process-again :
      ((s : Step) → m.down s ≡ false)
      → process path_match action subject firing_id run_id now day project ev
          (process path_match action subject firing_id run_id now day project ev m)
        ≡ process path_match action subject firing_id run_id now day project ev m
  unfolding processed
  process-again up =
      rw
        (process-up path_match action subject firing_id run_id now day project ev m
          (up read_enabled))
        (all_again up)
