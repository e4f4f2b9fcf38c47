-- ===== src/Bus/Queues.antt =====
-- internal/kernel/bus/bus.go: the queues of the subscribers, from the side of a publisher (`dispatch`) and of
-- the subscribers (`consume`, `report`), and the end of the bus.
use lexicode.Prelude.{
  ℕ, ◌-◌, Bool, true, false, not, ◌&&◌, ◌||◌, List, [], ◌∷◌, ◌++◌, Option, none, some, ◌==◌, ltb,
  if◌then◌else◌, any, count_where,
}
use lexicode.Domain.Words.{Key}
use lexicode.Bus.{DispatchState, done, failed, Delivery, Dispatch, Bus, finalize, set_dispatch}

abbrev pub is_to : Key → Delivery → Bool
is_to sub d = d.sub == sub

-- There is room in the queue of a subscription.
unfoldable pub has_room : Key → Bus → Bool
unfolding count_where
has_room sub b = ltb (count_where (is_to sub) b.queue) b.buf_size

abbrev pub append_item : Key → ℕ → Bus → Bus
append_item sub t b = record b { queue = b.queue ++ record { sub = sub; ticket = t } ∷ [] }

unfoldable pub with_dispatch : ℕ → Dispatch → Bus → Bus
unfolding set_dispatch
with_dispatch t d b = record b { dispatches = set_dispatch t d b.dispatches }

-- The first pass of a publisher comes to a subscription, and does not wait.
unfoldable pub offer : ℕ → Bus → Bus
unfolding has_room with_dispatch
offer t b =
    let d = b.dispatches t in
    elim d.offered [
      | [] ↦ b
      | s ∷ ss ↦
          if has_room s b
          then with_dispatch t (record d { offered = ss }) (append_item s t b)
          else with_dispatch t (record d { offered = ss; full = d.full ++ s ∷ [] }) b
    ]

-- The second pass waits for room in one queue after another.
unfoldable pub wait : ℕ → Bus → Bus
unfolding has_room with_dispatch
wait t b =
    let d = b.dispatches t in
    elim d.full [
      | [] ↦ b
      | s ∷ ss ↦
          if d.abandoned || not (has_room s b)
          then b
          else with_dispatch t (record d { full = ss }) (append_item s t b)
    ]

-- A publisher that waits gives up: its context is done, or the bus is stopped.
unfoldable pub abandon : ℕ → Bus → Bus
unfolding with_dispatch
abandon t b =
    let d = b.dispatches t in
    elim d.offered [
      | [] ↦ elim d.full [ [] ↦ b | _ ↦ with_dispatch t (record d { abandoned = true }) b ]
      | _ ↦ b
    ]

-- The first entry that passes a test, and the others.
unfoldable pub pull {ℓ} : {A : Type ℓ} → (A → Bool) → List A → Option (A × List A)
pull p [] = none
pull p (x ∷ xs) =
    let rest = pull p xs in
    if p x then some (x, xs) else elim rest [ none ↦ none | some (y, ys) ↦ some (y, x ∷ ys) ]

-- A subscriber takes the next item of its queue, if it is idle.
unfoldable pub take : Key → Bus → Bus
unfolding any pull
take sub b = if any (λ h. is_to sub h.delivery) b.busy then b else elim (pull (is_to sub) b.queue) [
  | none ↦ b
  | some (d, rest) ↦ record b {
    queue = rest;
    busy = record { delivery = d; answered = false } ∷ b.busy;
  }
]

-- Its handler returns, with an error or without: the first half of `report`. What the handler does before, such as
-- a publication of its own, is other steps; whether it ever returns is not modelled.
unfoldable pub returns : Key → (good : Bool) → Bus → Bus
unfolding pull with_dispatch
returns sub good b = elim (pull (λ h. is_to sub h.delivery && not h.answered) b.busy) [
  | none ↦ b
  | some (h, rest) ↦
      (let d = b.dispatches h.delivery.ticket in
        with_dispatch h.delivery.ticket (record d { any_failed = d.any_failed || not good })
          (record b {
            busy = record h { answered = true } ∷ rest;
            replies = record { delivery = h.delivery; good = good } ∷ b.replies;
          }))
]

abbrev pub final_state : Dispatch → DispatchState
final_state d = if d.any_failed then failed else done

-- The second half of `report`: the last one to report writes the outcome.
unfoldable pub report : (saves : Bool) → Key → Bus → Bus
unfolding pull with_dispatch finalize
report saves sub b = elim (pull (λ h. is_to sub h.delivery && h.answered) b.busy) [
  | none ↦ b
  | some (h, rest) ↦
      (let d = b.dispatches h.delivery.ticket in
        let b' =
          with_dispatch h.delivery.ticket (record d { remaining = d.remaining - 1 })
            (record b { busy = rest }) in
        if d.remaining == 1 then finalize saves d.event (final_state d) b' else b')
]

-- `Stop`
abbrev pub stop_bus : Bus → Bus
stop_bus b = record b { stopped = true }
