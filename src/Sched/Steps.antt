-- ===== src/Sched/Steps.antt =====
-- The run engine as a transition system: every operation of internal/kernel/sched, with any arguments,
-- is one step. What other writers do during a step is legal, as the store lets no one else write states.
pub mod Refines
use lexicode.Prelude.{ℕ, Bool, List, [], ◌∷◌, Option, Result}
use lexicode.Domain.RunState.{RunState}
use lexicode.Domain.Words.{Key, Time, Words}
use lexicode.Domain.Rows.{Run, Agent, Ticket}
use lexicode.Store.Db.{Db}
use lexicode.Sched.World.{SchedError}
use lexicode.Sched.Create.{LoopStoppedRun, enqueue_loop_stopped}
use lexicode.Sched.Admission.{admit_pass}
use lexicode.Sched.Kernel.{Kernel, Supervisor, start_all}
use lexicode.Sched.Stop.{stop_run, takeover_run, cancel_ticket_runs}
use lexicode.Sched.Enqueue.{RunRequest, enqueue}
use lexicode.Sched.Supervise.{
  Waited, PreserveOutcome, session_over, provision_over, launch_over, unmanned, provisioned,
  launched,
}
use lexicode.Sched.Reconcile.{reconcile}
use lexicode.Sched.Clock.{set_run_state_of, seed_parked, on_timer}
use lexicode.Sched.Kernel.{with_supervisor}
use lexicode.Sched.Board.Writes.{Legal}
use lexicode.Sched.Board.Admission.{of_run}

-- `admitPass`, with the supervisors that it starts.
unfoldable pub admit_runs :
    (races : Key → List (Db → Db)) (now : Time) (day : ℕ) (ended : Run → Bool) → Kernel → Kernel
unfolding start_all
admit_runs races now day ended k =
    let w = admit_pass (of_run races) now day ended (record k.world { launched = [] }) in
    start_all w.launched (record k { world = w })

-- `EnqueueLoopStopped`
unfoldable pub refuse_run : (id : Key) (now : Time) → LoopStoppedRun → Kernel → Kernel
refuse_run id now req k = record k { world = (enqueue_loop_stopped id now k.world req).0 }

infix 40 ◌▷◌ ◌▷*◌
pub data ◌▷◌ (k : Kernel) : Kernel → Type 0 where
  enqueues :
      (races : Key → List (Db → Db))
      → Legal races
      → (now : Time) (id entry : Key) (subject_key : Option Ticket → Key)
        (assemble : RunRequest → Agent → Option Ticket → Result SchedError (List Key))
        (req : RunRequest)
      → k ▷ (enqueue races now id entry subject_key assemble k req).0
  refuses : (id : Key) (now : Time) (req : LoopStoppedRun) → k ▷ refuse_run id now req k
  admits :
      (races : Key → List (Db → Db))
      → Legal races
      → (now : Time) (day : ℕ) (ended : Run → Bool) → k ▷ admit_runs races now day ended k
  stops :
      (races : Key → List (Db → Db))
      → Legal races
      → (now : Time) (id : Key) (why : Words) → k ▷ (stop_run races now k id why).0
  takes_over :
      (races : Key → List (Db → Db))
      → Legal races
      → (now : Time) (id note : Key) → k ▷ (takeover_run races now k id note).0
  cancels :
      (races : Key → List (Db → Db))
      → Legal races
      → (now : Time) (ticket : Key) (why : Words)
      → k ▷ (cancel_ticket_runs races now k ticket why).0
  asks_human :
      (races : Key → List (Db → Db))
      → Legal races
      → (now : Time) (id : Key) (to : RunState) (why : Words)
      → k ▷ (set_run_state_of races now id to why k).0
  provisions :
      (races : Key → List (Db → Db))
      → Legal races
      → (now : Time) (run : Run) (i branch : Key) → k ▷ (provisioned races now run i branch k).0
  launches : (id : Key) → k ▷ launched id k
  seeds : (now : Time) (run : Run) → k ▷ seed_parked now run k
  ticks : (id : Key) (seconds : ℕ) → k ▷ with_supervisor id (on_timer seconds) k
  ends :
      (races : Key → List (Db → Db))
      → Legal races
      → (now : Time) (run : Run) (sup : Supervisor) (p : PreserveOutcome) (w : Waited)
      → k ▷ session_over races now run sup p w k
  not_provisioned :
      (races : Key → List (Db → Db))
      → Legal races
      → (now : Time) (run : Run) (sup : Supervisor) (p : PreserveOutcome) (message : Key)
      → k ▷ provision_over races now run sup p message k
  not_launched :
      (races : Key → List (Db → Db))
      → Legal races
      → (now : Time) (run : Run) (p : PreserveOutcome) (message : Key)
      → k ▷ launch_over races now run p message k
  no_agent :
      (races : Key → List (Db → Db))
      → Legal races
      → (now : Time) (run : Run) → k ▷ unmanned races now run k
  recovers :
      (races : Key → List (Db → Db))
      → Legal races
      → (now : Time) (alive : Run → Bool) → k ▷ (reconcile races now alive k).0

pub data ◌▷*◌ (k : Kernel) : Kernel → Type 0 where
  idle : k ▷* k
  then_step : {l m : Kernel} → k ▷* l → l ▷ m → k ▷* m
