-- ===== src/Sched/Clock/Laws.antt =====
-- The wall clock of internal/kernel/sched/supervisor.go measures the time that the run works.
use lexicode.Prelude.{
  ap, ℕ, ◌+◌, ◌-◌, ◌≤◌, ◌≡◌, refl, ◌↔◌, Bool, true, false, List, [], ◌∷◌, none, some, Bool-cases,
  inl, inr, if◌then◌else◌, arith,
}
use lexicode.Domain.Words.{Time}
use lexicode.Domain.Rows.{Run}
use lexicode.Sched.Kernel.{Supervisor}
use lexicode.Sched.Clock.{left, wall_limit, wall_deadline, wall_remaining, credited, set_parked}

-- What happens to a run: at some moments it parks or resumes.
abbrev pub History : Type 0
History = List (Time × Bool)

-- The moments come in order, from `since` up to `now`.
abbrev pub Ordered : Time → History → Time → Type 0
Ordered since [] now = since ≤ now
Ordered since ((t, parks) ∷ h) now = (since ≤ t) × Ordered t h now

-- The time that a run works, from `since` up to `now`.
unfoldable pub worked : (parked : Bool) (since : Time) → History → (now : Time) → ℕ
worked parked since [] now = if parked then 0 else now - since
worked parked since ((t, parks) ∷ h) now = (if parked then 0 else t - since) + worked parks t h now

unfoldable pub replay : History → Supervisor → Supervisor
replay [] sup = sup
replay ((t, parks) ∷ h) sup = replay h (set_parked parks t sup)

-- The time that a supervisor has credited, up to `t`.
abbrev credit : Supervisor → Time → ℕ
credit sup t = sup.parked_total + (if sup.parked then credited sup.parked_since t else 0)

-- A parked supervisor knows since when.
abbrev Knows : Supervisor → Time → Type 0
Knows sup t = sup.parked ≡ true → (s : Time) × (sup.parked_since ≡ some s) × (s ≤ t)

set_parked-parked :
    (parks : Bool) (t : Time) (sup : Supervisor) → (set_parked parks t sup).parked ≡ parks
unfolding set_parked
set_parked-parked true t sup = ground arith
set_parked-parked false t sup = ground arith

set_parked-credit :
    (parks : Bool) (t : Time) (sup : Supervisor) → credit (set_parked parks t sup) t ≡ credit sup t
unfolding set_parked
set_parked-credit true t sup = ground arith
set_parked-credit false t sup = ground arith

credit-later :
    (since t : Time) (sup : Supervisor)
    → since ≤ t
    → Knows sup since
    → credit sup t + (if sup.parked then 0 else t - since) ≡ credit sup since + (t - since)
credit-later since t sup le knows = elim (Bool-cases sup.parked) [
  | inr e ↦ rw e (omega arith)
  | inl e ↦ let (s, at, before) = knows e in rw (e, at) (omega arith)
]

set_parked-Knows :
    (parks : Bool) (since t : Time) (sup : Supervisor)
    → since ≤ t
    → Knows sup since
    → Knows (set_parked parks t sup) t
unfolding set_parked
set_parked-Knows true since t sup le knows h = elim (Bool-cases sup.parked) [
  | inl e ↦ let (s, at, before) = knows e in (s, rw (e, set_parked) at, omega arith)
  | inr e ↦ (t, rw (e, set_parked) refl, omega arith)
]
set_parked-Knows false since t sup le knows h = absurd (cc (set_parked-parked false t sup))

-- Credited and worked time add up to the time that passed.
replay-credit :
    (since : Time) (h : History) (now : Time) (sup : Supervisor)
    → Ordered since h now
    → Knows sup since
    → (credit (replay h sup) now + worked sup.parked since h now ≡ credit sup since + (now - since))
      × Knows (replay h sup) now
      × (since ≤ now)
unfolding replay worked
replay-credit since [] now sup le knows = (
  credit-later since now sup le knows,
  λ e. let (s, at, before) = knows e in (s, at, omega arith),
  le,
)
replay-credit since ((t, parks) ∷ h) now sup (le, rest) knows =
    let (sum, knows', le') =
      replay-credit t h now (set_parked parks t sup) rest
        (set_parked-Knows parks since t sup le knows) in
    (
      omega (
        arith,
        ap (λ (p : Bool). worked p t h now) (set_parked-parked parks t sup),
        set_parked-credit parks t sup,
        credit-later since t sup le knows,
      ),
      knows',
      omega arith,
    )

-- A supervisor that starts at a time: nothing has been credited, and it watches the run from then on, or, for
-- a run that waits, from the question on that it waits for.
pub data Watches (sup : Supervisor) (start : Time) : (begun : Time) → Type 0 where
  works : sup.parked ≡ false → Watches sup start start
  waits_since :
      {begun : Time}
      → sup.parked ≡ true
      → sup.parked_since ≡ some begun
      → begun ≤ start
      → Watches sup start begun

-- The time from which a run is charged: its start, or that of its supervisor if none is recorded.
pub data Base (run : Run) (start : Time) : (base : Time) → Type 0 where
  recorded : {base : Time} → run.started_at ≡ some base → Base run start base
  not_recorded : run.started_at ≡ none → Base run start start

wall_deadline-Base :
    (run : Run) (start base : Time) (seconds : ℕ)
    → Base run start base
    → wall_deadline start run seconds ≡ base + wall_limit seconds
unfolding wall_deadline
wall_deadline-Base run start base seconds (recorded e) = rw e refl
wall_deadline-Base run start base seconds (not_recorded e) = rw e refl

Watches-credit :
    (sup : Supervisor) (start begun : Time)
    → sup.parked_total ≡ 0
    → Watches sup start begun
    → (credit sup start + begun ≡ start) × Knows sup start × (begun ≤ start)
Watches-credit sup start begun zero (works e) =
    (rw (zero, e) (omega arith), λ parked. absurd (cc (e, parked)), omega arith)
Watches-credit sup start begun zero (waits_since e since le) =
    (rw (zero, e, since) (omega (arith, le)), λ parked. (begun, since, le), le)

-- However a run parks and resumes while a supervisor watches it, the timer of that supervisor fires while
-- the run works exactly when the limit is used up by what the run has worked under the supervisor, and by
-- all the time before the supervisor watched it: what it waits for a human under a supervisor is not
-- charged, what it waited and resumed from under an earlier one is.
pub wall_remaining-worked :
    (run : Run) (start base begun : Time) (seconds : ℕ) (h : History) (now : Time)
    (sup : Supervisor)
    → Base run start base
    → base ≤ begun
    → sup.parked_total ≡ 0
    → Watches sup start begun
    → Ordered start h now
    → (replay h sup).parked ≡ false
    → (wall_remaining now (wall_deadline start run seconds) (replay h sup) ≡ left 0)
      ↔ (wall_limit seconds ≤ (begun - base) + worked sup.parked start h now)
unfolding wall_remaining
wall_remaining-worked run start base begun seconds h now sup from le zero watch ordered working =
    let (credited_first, knows, early) = Watches-credit sup start begun zero watch in
    let (sum, knows', late) = replay-credit start h now sup ordered knows in
    let spent : (replay h sup).parked_total + worked sup.parked start h now + begun ≡ now =
      omega (arith, rw working at sum, credited_first, late) in
    rw (wall_deadline-Base run start base seconds from, working)
      (λ e. ground (arith, spent, le), λ e. ground (arith, spent, le))
