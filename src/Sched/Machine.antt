-- ===== src/Sched/Machine.antt =====
-- The run state machine of internal/kernel/sched/states.go: the table, and as independent
-- descriptions the edges in words and the paths of them, and the diagram of plan/01-architecture.md, section
-- 10.1, from which the table differs.
use lexicode.Prelude.{
  Bool, true, false, List, [], ◌∷◌, ◌≡◌, refl, ◌≢◌, ◌⊎◌, inl, inr, ◌↔◌, any, arith,
}
use lexicode.Domain.RunState.{
  RunState, queued, provisioning, running, needs_input, awaiting_approval, completed, failed,
  timed_out, canceled, loop_stopped, same_state, is_terminal,
}

-- `legalTransitions`; a state that the map has no row for has no successor.
unfoldable pub legal_transitions : RunState → List RunState
legal_transitions queued = provisioning ∷ canceled ∷ failed ∷ []
legal_transitions provisioning = running ∷ failed ∷ canceled ∷ []
legal_transitions running =
    needs_input ∷ awaiting_approval ∷ completed ∷ failed ∷ timed_out ∷ canceled ∷ []
legal_transitions needs_input = running ∷ completed ∷ failed ∷ timed_out ∷ canceled ∷ []
legal_transitions awaiting_approval = running ∷ completed ∷ failed ∷ timed_out ∷ canceled ∷ []
legal_transitions _ = []

unfoldable pub transition_legal : RunState → RunState → Bool
unfolding legal_transitions any
transition_legal from to = any (same_state to) (legal_transitions from)

-- A run that is parked on a human.
pub data IsParked : RunState → Type 0 where
  asking : IsParked needs_input
  approving : IsParked awaiting_approval

-- A run that its agent process has been started for, and that has not ended.
pub data IsLive : RunState → Type 0 where
  working : IsLive running
  parked : {s : RunState} → IsParked s → IsLive s

infix 40 ◌⟶◌ ◌⟶*◌
-- The edges of the table, in words: what the code allows, which the diagram of the plan does not agree with.
pub data ◌⟶◌ : RunState → RunState → Type 0 where
  admit : queued ⟶ provisioning
  launch : provisioning ⟶ running
  park : {s : RunState} → IsParked s → running ⟶ s
  resume : {s : RunState} → IsParked s → s ⟶ running
  complete : {s : RunState} → IsLive s → s ⟶ completed
  expire : {s : RunState} → IsLive s → s ⟶ timed_out
  fail : {s : RunState} → is_terminal s ≡ false → s ⟶ failed
  cancel : {s : RunState} → is_terminal s ≡ false → s ⟶ canceled

pub data ◌⟶*◌ (s : RunState) : RunState → Type 0 where
  here : s ⟶* s
  next : {t u : RunState} → s ⟶* t → t ⟶ u → s ⟶* u

pub ruleset edges = (
  admit, launch, park, resume, complete, expire, fail, cancel, asking, approving, working, parked,
)

legal-⟶ : (s t : RunState) → transition_legal s t ≡ true → s ⟶ t
unfolding transition_legal
legal-⟶ s t h = grind (arith, edges)

parked-legal : {s : RunState} → IsParked s → transition_legal running s ≡ true
unfolding transition_legal
parked-legal asking = refl
parked-legal approving = refl

legal-parked : {s : RunState} → IsParked s → transition_legal s running ≡ true
unfolding transition_legal
legal-parked asking = refl
legal-parked approving = refl

live-legal :
    {s : RunState}
    → IsLive s
    → (transition_legal s completed ≡ true) × (transition_legal s timed_out ≡ true)
unfolding transition_legal
live-legal working = (refl, refl)
live-legal (parked asking) = (refl, refl)
live-legal (parked approving) = (refl, refl)

ended-legal :
    (s : RunState)
    → is_terminal s ≡ false
    → (transition_legal s failed ≡ true) × (transition_legal s canceled ≡ true)
unfolding transition_legal
ended-legal s h = ground arith

⟶-legal : {s t : RunState} → s ⟶ t → transition_legal s t ≡ true
⟶-legal admit = unfold transition_legal in refl
⟶-legal launch = unfold transition_legal in refl
⟶-legal (park p) = parked-legal p
⟶-legal (resume p) = legal-parked p
⟶-legal (complete l) = (live-legal l).0
⟶-legal (expire l) = (live-legal l).1
⟶-legal (fail {s = s} h) = (ended-legal s h).0
⟶-legal (cancel {s = s} h) = (ended-legal s h).1

-- The table in words: a queued run is admitted, a provisioned run launched, a running run parks and a parked
-- run resumes, a live run completes or times out, and a run that has not ended fails or is canceled.
pub transition_legal_iff-⟶ : (s t : RunState) → (transition_legal s t ≡ true) ↔ (s ⟶ t)
transition_legal_iff-⟶ s t = (legal-⟶ s t, ⟶-legal)

pub ⟶*-trans : {s t u : RunState} → s ⟶* t → t ⟶* u → s ⟶* u
⟶*-trans p here = p
⟶*-trans p (next q e) = next (⟶*-trans p q) e

terminal-illegal : (s t : RunState) → is_terminal s ≡ true → transition_legal s t ≡ false
unfolding transition_legal
terminal-illegal s t h = ground arith

-- Nothing leaves a terminal state: a path from one ends where it starts.
pub terminal-⟶* : {s t : RunState} → is_terminal s ≡ true → s ⟶* t → t ≡ s
terminal-⟶* h here = refl
terminal-⟶* {s} h (next {t = t} {u = u} p e) =
    grind (arith, terminal-⟶* h p, ⟶-legal e, terminal-illegal t u)

creation-illegal : (s : RunState) → transition_legal s loop_stopped ≡ false
unfolding transition_legal
creation-illegal s = ground arith

-- `loop_stopped` is a creation state: no path from another state enters it.
pub loop_stopped-creation : {s : RunState} → s ⟶* loop_stopped → s ≡ loop_stopped
loop_stopped-creation {s} p = go p refl
  where
    go : {t : RunState} → s ⟶* t → t ≡ loop_stopped → s ≡ loop_stopped
    go here e = e
    go (next {t = t} {u = u} q e) h = grind (arith, ⟶-legal e, creation-illegal t)

-- The edges that plan/01-architecture.md draws, its line of cancels for every state that has not ended.
pub data IsDrawn : RunState → RunState → Type 0 where
  admits : IsDrawn queued provisioning
  launches : IsDrawn provisioning running
  asks : IsDrawn running needs_input
  waits : IsDrawn running awaiting_approval
  is_answered : IsDrawn needs_input running
  is_approved : IsDrawn awaiting_approval running
  completes : IsDrawn running completed
  breaks : IsDrawn running failed
  times_out : IsDrawn running timed_out
  is_unprovisioned : IsDrawn provisioning failed
  loops : IsDrawn queued loop_stopped
  is_canceled : {s : RunState} → is_terminal s ≡ false → IsDrawn s canceled

-- The edges of the table that the plan does not draw: the failure of a queued run, and the ends of a parked
-- run other than its cancel.
pub data IsUndrawn : RunState → RunState → Type 0 where
  unadmitted : IsUndrawn queued failed
  parked_completes : {s : RunState} → IsParked s → IsUndrawn s completed
  parked_breaks : {s : RunState} → IsParked s → IsUndrawn s failed
  parked_times_out : {s : RunState} → IsParked s → IsUndrawn s timed_out

ruleset drawn = (
  admits, launches, asks, waits, is_answered, is_approved, completes, breaks, times_out,
  is_unprovisioned, is_canceled, unadmitted, parked_completes, parked_breaks, parked_times_out,
  asking, approving,
)

legal-Drawn :
    (s t : RunState)
    → transition_legal s t ≡ true
    → (t ≢ loop_stopped) × (IsDrawn s t ⊎ IsUndrawn s t)
unfolding transition_legal
legal-Drawn s t h = grind (arith, drawn)

parked-ends :
    {s : RunState}
    → IsParked s
    → (transition_legal s completed ≡ true)
      × (transition_legal s failed ≡ true)
      × (transition_legal s timed_out ≡ true)
unfolding transition_legal
parked-ends asking = (refl, refl, refl)
parked-ends approving = (refl, refl, refl)

undrawn-legal : {s t : RunState} → IsUndrawn s t → transition_legal s t ≡ true
undrawn-legal unadmitted = unfold transition_legal in refl
undrawn-legal (parked_completes p) = (parked-ends p).0
undrawn-legal (parked_breaks p) = (parked-ends p).1
undrawn-legal (parked_times_out p) = (parked-ends p).2

drawn-legal : {s t : RunState} → IsDrawn s t → t ≢ loop_stopped → transition_legal s t ≡ true
unfolding transition_legal
drawn-legal admits other = refl
drawn-legal launches other = refl
drawn-legal asks other = refl
drawn-legal waits other = refl
drawn-legal is_answered other = refl
drawn-legal is_approved other = refl
drawn-legal completes other = refl
drawn-legal breaks other = refl
drawn-legal times_out other = refl
drawn-legal is_unprovisioned other = refl
drawn-legal loops other = absurd (other refl)
drawn-legal (is_canceled {s = s} h) other = (ended-legal s h).1

-- The table allows exactly the transitions that the diagram of the plan draws, without the one into
-- loop_stopped, and four kinds that it does not draw: a queued run may fail, and a parked run may complete,
-- fail or time out.
pub transition_legal_iff-IsDrawn :
    (s t : RunState)
    → (transition_legal s t ≡ true) ↔ ((t ≢ loop_stopped) × (IsDrawn s t ⊎ IsUndrawn s t))
transition_legal_iff-IsDrawn s t = (
  legal-Drawn s t,
  λ (other, edge). elim edge [ inl e ↦ drawn-legal e other | inr e ↦ undrawn-legal e ],
)
