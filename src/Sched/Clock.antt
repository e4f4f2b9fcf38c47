-- ===== src/Sched/Clock.antt =====
-- The wall clock of a supervisor, in internal/kernel/sched/supervisor.go: it stands still while the run
-- waits for a human. Times are in milliseconds; a timer with nothing left fires at once, so a remaining
-- time stops at 0.
pub mod Laws
use lexicode.Prelude.{
  ℕ, ◌+◌, ◌-◌, ◌*◌, Bool, true, false, List, [], ◌∷◌, Option, none, some, Result, ok, err, ◌==◌,
  ltb, if◌then◌else◌,
}
use lexicode.Domain.RunState.{RunState, needs_input, awaiting_approval, timed_out}
use lexicode.Domain.Words.{Key, Time, Words, wall_clock}
use lexicode.Domain.Rows.{Run, Elicitation}
use lexicode.Store.Db.{Db}
use lexicode.Sched.World.{SchedError}
use lexicode.Sched.States.{Round, settled, lost, set_run_state}
use lexicode.Sched.Kernel.{Supervisor, Kernel, with_supervisor, pending_for_run}
use lexicode.Sched.Stop.{request_stop}

-- The limit of the agent in seconds, an hour where there is none.
unfoldable pub wall_limit : (seconds : ℕ) → ℕ
wall_limit seconds = if seconds == 0 then 3600000 else seconds * 1000

-- `wallDeadline`
unfoldable pub wall_deadline : (now : Time) → Run → (seconds : ℕ) → Time
unfolding wall_limit
wall_deadline now run seconds = elim run.started_at [
  | none ↦ now + wall_limit seconds
  | some t ↦ t + wall_limit seconds
]

-- What the timer is set to: `parkedTimerHorizon`, or the time that is left.
pub data Remaining : Type 0 where
  horizon : Remaining
  left : ℕ → Remaining

-- `wallRemaining`
unfoldable pub wall_remaining : (now deadline : Time) → Supervisor → Remaining
wall_remaining now deadline sup =
    if sup.parked then horizon else left ((deadline + sup.parked_total) - now)

abbrev pub credited : Option Time → (now : Time) → ℕ
credited none now = 0
credited (some t) now = now - t

-- `setParked`: a repeated state changes nothing.
unfoldable pub set_parked : Bool → (now : Time) → Supervisor → Supervisor
set_parked true now sup =
    if sup.parked then sup else record sup { parked = true; parked_since = some now }
set_parked false now sup =
    if sup.parked
    then record sup {
      parked = false;
      parked_since = none;
      parked_total = sup.parked_total + credited sup.parked_since now;
    }
    else sup

abbrev pub waits : RunState → Bool
waits needs_input = true
waits awaiting_approval = true
waits _ = false

-- `notePark`: a run without a supervisor has no clock.
unfoldable pub note_park : (now : Time) → Key → RunState → Kernel → Kernel
unfolding with_supervisor
note_park now id state k = with_supervisor id (set_parked (waits state) now) k

abbrev pub earlier : Time → Time → Time
earlier s t = if ltb t s then t else s

unfoldable pub oldest : Time → List Elicitation → Time
oldest since [] = since
oldest since (el ∷ els) = oldest (earlier since el.created_at) els

-- `seedParked`: a run that waits when its supervisor starts is parked since its oldest open question.
unfoldable pub seed_parked : (now : Time) → Run → Kernel → Kernel
unfolding pending_for_run oldest
seed_parked now run k =
    if waits run.state
    then with_supervisor run.id
        (set_parked true
          (elim (pending_for_run k run.id) [ err e ↦ now | ok els ↦ oldest now els ]))
        k
    else k

-- The timer fires: a park that it raced wins.
unfoldable pub on_timer : (seconds : ℕ) → Supervisor → Supervisor
on_timer seconds sup = if sup.parked then sup else request_stop timed_out (wall_clock seconds) sup

-- `SetRunState`, and the clock that follows it.
unfoldable pub set_run_state_of :
    (races : Key → List (Db → Db)) (now : Time) → Key → RunState → Words → Kernel → Kernel × Round
set_run_state_of races now id to reason k =
    let (w, res) = set_run_state (races id) now k.world id to reason in
    let k' : Kernel = record k { world = w } in
    elim res [
      | settled (ok run) ↦ (note_park now id to k', settled (ok run))
      | settled (err e) ↦ (k', settled (err e))
      | lost ↦ (k', lost)
    ]
