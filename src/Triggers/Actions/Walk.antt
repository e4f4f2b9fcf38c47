-- ===== src/Triggers/Actions/Walk.antt =====
-- The loop of `runActions` in internal/service/triggers/engine.go.
use lexicode.Prelude.{
  ◌≡◌, ◌≢◌, ◌⊎◌, inl, inr, refl, Bool, true, false, ◌||◌, none, some, Result, ok, err, Option-cases,
  List, [], ◌∷◌, ◌++◌, Option, arith,
}
use lexicode.Domain.Words.{Key, action_failed}
use lexicode.Domain.Payload.{Json}
use lexicode.Domain.Rows.{Event}
use lexicode.Sched.World.{World}
use lexicode.Guard.{
  GuardPass, Outcome, succeeded, no_action, awaiting_approval, errored, debounced, superseded,
  loop_stopped, budget_exceeded, unknown,
}
use lexicode.Triggers.Template.{Warning}
use lexicode.Triggers.Firing.{Rule, ActionRef, FiringOutcome}
use lexicode.Triggers.Actions.{
  ActionResult, ends_with, after_action, Walked, Turn, ends, goes, Execute, run_action, run_refs,
}

abbrev pub is_success : Outcome → Bool
is_success succeeded = true
is_success _ = false

module _ (action : Key → Option Execute) (tr : Rule) (ev : Event) (payload : Json)
    (pass : GuardPass) where
  -- The walk over the actions of a rule ends at the first action that is missing, fails, errors or waits
  -- for an approval: whatever actions follow it, the world, the warnings and the outcome are the ones it
  -- left. Where no action of a first part ends the walk, the second part runs in the state that the
  -- first part left.
  pub run_refs-append :
      (refs later : List ActionRef) (s : Walked)
      → ((w : World) (ws : List Warning) (o : FiringOutcome)
          → run_refs action tr ev payload pass refs s ≡ ends w ws o
          → run_refs action tr ev payload pass (refs ++ later) s ≡ ends w ws o)
        × ((s' : Walked)
            → run_refs action tr ev payload pass refs s ≡ goes s'
            → run_refs action tr ev payload pass (refs ++ later) s
              ≡ run_refs action tr ev payload pass later s')
  unfolding run_refs
  run_refs-append [] later s = (λ w ws o h. cc, λ s' h. ground arith)
  run_refs-append (ref ∷ refs) later s =
      go (run_action action tr ev payload pass ref s) refl (run_refs-append refs later)
    where
      Appends : List ActionRef → Walked → Type 0
      Appends first t =
          ((w : World) (ws : List Warning) (o : FiringOutcome)
            → run_refs action tr ev payload pass first t ≡ ends w ws o
            → run_refs action tr ev payload pass (first ++ later) t ≡ ends w ws o)
          × ((s' : Walked)
              → run_refs action tr ev payload pass first t ≡ goes s'
              → run_refs action tr ev payload pass (first ++ later) t
                ≡ run_refs action tr ev payload pass later s')

      go :
          (t : Turn)
          → run_action action tr ev payload pass ref s ≡ t
          → ((s' : Walked) → Appends refs s')
          → Appends (ref ∷ refs) s
      go (ends w ws o) e rest = rw (e, run_refs) (λ a b c h. h, λ s' h. absurd (cc))
      go (goes s'') e rest = rw (e, run_refs) (rest s'')

  -- The answer of an action that an entry names.
  abbrev Answers : ActionRef → World → World → List Warning → Result Key ActionResult → Type 0
  Answers ref w w' ws res =
      (execute : Execute) × (action ref.action_id ≡ some execute)
      × (execute tr ev payload pass ref w ≡ (w', ws, res))

  -- When an entry ends the walk, in which world, and as what: it is missing, fails, waits for an approval, or
  -- answers with another outcome than succeeded or no_action.
  pub data Halts (ref : ActionRef) (w : World) : World → Outcome → Type 0 where
    missing : action ref.action_id ≡ none → Halts ref w w errored
    fails :
        {w' : World} {ws : List Warning} {message : Key}
        → Answers ref w w' ws (err message)
        → Halts ref w w' errored
    asks :
        {w' : World} {ws : List Warning} {r : ActionResult}
        → Answers ref w w' ws (ok r)
        → r.outcome ≡ awaiting_approval
        → Halts ref w w' awaiting_approval
    ends_badly :
        {w' : World} {ws : List Warning} {r : ActionResult}
        → Answers ref w w' ws (ok r)
        → r.outcome ≢ succeeded
        → r.outcome ≢ no_action
        → r.outcome ≢ awaiting_approval
        → Halts ref w w' errored

  -- The walk over a list of entries: it goes on while they succeed or do nothing.
  pub data Walks : List ActionRef → Walked → Turn → Type 0 where
    over : {s : Walked} → Walks [] s (goes s)
    halts :
        {ref : ActionRef} {refs : List ActionRef} {s : Walked} {w' : World} {ws : List Warning}
        {o : FiringOutcome}
        → Halts ref s.world w' o.outcome
        → Walks (ref ∷ refs) s (ends w' ws o)
    goes_on :
        {ref : ActionRef} {refs : List ActionRef} {s s' : Walked} {w' : World} {ws : List Warning}
        {r : ActionResult} {t : Turn}
        → Answers ref s.world w' ws (ok r)
        → (r.outcome ≡ succeeded) ⊎ (r.outcome ≡ no_action)
        → s'.world ≡ w'
        → s'.done ≡ (s.done || is_success r.outcome)
        → Walks refs s' t
        → Walks (ref ∷ refs) s t

  -- The same of one entry.
  data Turned (ref : ActionRef) (s : Walked) : Turn → Type 0 where
    stays :
        {w' : World} {ws : List Warning} {o : FiringOutcome}
        → Halts ref s.world w' o.outcome
        → Turned ref s (ends w' ws o)
    moves :
        {s' : Walked} {w' : World} {ws : List Warning} {r : ActionResult}
        → Answers ref s.world w' ws (ok r)
        → (r.outcome ≡ succeeded) ⊎ (r.outcome ≡ no_action)
        → s'.world ≡ w'
        → s'.done ≡ (s.done || is_success r.outcome)
        → Turned ref s (goes s')

  after_action-Turned :
      (ref : ActionRef) (s : Walked) (w' : World) (ws : List Warning) (r : ActionResult)
      → Answers ref s.world w' ws (ok r)
      → (o : Outcome) → r.outcome ≡ o
      → Turned ref s (
          after_action action tr ev payload pass ref
            (record s { world = w'; warnings = s.warnings ++ ws })
            r)
  unfolding after_action
  after_action-Turned ref s w' ws r answers succeeded e =
      rw (e, after_action) (moves answers (inl e) refl (rw e (ground arith)))
  after_action-Turned ref s w' ws r answers no_action e =
      rw (e, after_action) (moves answers (inr e) refl (rw e (ground arith)))
  after_action-Turned ref s w' ws r answers awaiting_approval e =
      rw (e, after_action) (stays (asks answers e))
  after_action-Turned ref s w' ws r answers errored e =
      rw (e, after_action) (stays (ends_badly answers (λ f. cc) (λ f. cc) (λ f. cc)))
  after_action-Turned ref s w' ws r answers debounced e =
      rw (e, after_action) (stays (ends_badly answers (λ f. cc) (λ f. cc) (λ f. cc)))
  after_action-Turned ref s w' ws r answers superseded e =
      rw (e, after_action) (stays (ends_badly answers (λ f. cc) (λ f. cc) (λ f. cc)))
  after_action-Turned ref s w' ws r answers loop_stopped e =
      rw (e, after_action) (stays (ends_badly answers (λ f. cc) (λ f. cc) (λ f. cc)))
  after_action-Turned ref s w' ws r answers budget_exceeded e =
      rw (e, after_action) (stays (ends_badly answers (λ f. cc) (λ f. cc) (λ f. cc)))
  after_action-Turned ref s w' ws r answers unknown e =
      rw (e, after_action) (stays (ends_badly answers (λ f. cc) (λ f. cc) (λ f. cc)))

  run_action-Turned :
      (ref : ActionRef) (s : Walked) → Turned ref s (run_action action tr ev payload pass ref s)
  unfolding run_action
  run_action-Turned ref s = elim (Option-cases (action ref.action_id)) [
    | inl e ↦ rw (e, run_action) (stays (missing e))
    | inr (execute, e) ↦
        rw (e, run_action) (answer execute e (execute tr ev payload pass ref s.world) refl)
  ]
    where
      answer :
          (execute : Execute)
          → action ref.action_id ≡ some execute
          → (x : World × List Warning × Result Key ActionResult)
          → execute tr ev payload pass ref s.world ≡ x
          → Turned ref s (
              let s' : Walked = record s { world = x.0; warnings = s.warnings ++ x.1 } in
              elim x.2 [
                | err message ↦ ends_with s' errored (action_failed ref.action_id message)
                | ok r ↦ after_action action tr ev payload pass ref s' r
              ])
      answer execute e (w', ws, err message) f = stays (fails (execute, e, f))
      answer execute e (w', ws, ok r) f =
          after_action-Turned ref s w' ws r (execute, e, f) r.outcome refl

  -- The walk over the actions of a rule goes on while they succeed or do nothing, and is done if one has
  -- succeeded. It ends at the first entry that is missing, fails, or answers with another outcome: as a firing
  -- that waits for an approval if the action does, and as an errored one otherwise, in the world that this
  -- entry left, so that no later action runs.
  pub run_refs-Walks :
      (refs : List ActionRef) (s : Walked)
      → Walks refs s (run_refs action tr ev payload pass refs s)
  unfolding run_refs
  run_refs-Walks [] s = over
  run_refs-Walks (ref ∷ refs) s =
      go (run_action action tr ev payload pass ref s) (run_action-Turned ref s)
        (run_refs-Walks refs)
    where
      go :
          (t : Turn)
          → Turned ref s t
          → ((s' : Walked) → Walks refs s' (run_refs action tr ev payload pass refs s'))
          → Walks (ref ∷ refs) s (elim t [
            | ends w ws o ↦ ends w ws o
            | goes s' ↦ run_refs action tr ev payload pass refs s'
          ])
      go (ends w ws o) (stays h) rest = halts h
      go (goes s') (moves a o w d) rest = goes_on a o w d (rest s')
