-- ===== src/Tests/Kernel.antt =====
-- The theorems on making, stopping and recovering runs, and on the clock of a run, at two runs.
use lexicode.Prelude.{
  ◌+◌, ◌-◌, ◌≤◌, ◌<◌, ◌↔◌, ◌≡◌, refl, true, false, List, [], ◌∷◌, some, Option, Result, ok, err,
  All, arith,
}
use lexicode.Prelude.Lists.{get_elem?}
use lexicode.Domain.RunState.{RunState, is_terminal}
use lexicode.Domain.Words.{Key, silence, said}
use lexicode.Domain.Rows.{Run, Agent, Ticket}
use lexicode.Store.Db.{Db, StoreError, agent_by_id, ticket_by_id}
use lexicode.Store.Runs.{by_id}
use lexicode.Sched.World.{SchedError, store}
use lexicode.Sched.Kernel.{Kernel, Supervisor, new_supervisor, db_of, supervisor_of}
use lexicode.Sched.Stop.{stop_run, stopped_by}
use lexicode.Sched.Stop.Cancels.{stop_run-unsupervised, stop_run-supervised}
use lexicode.Sched.Supervise.{PreserveOutcome, Waited, session_over}
use lexicode.Sched.Board.{board, ◌⇒*◌}
use lexicode.Sched.Board.Writes.{Legal}
use lexicode.Sched.Board.Laws.{is_at, Comes}
use lexicode.Sched.Steps.{stops, idle, then_step}
use lexicode.Sched.Steps.Refines.{▷-⇒*, ▷*-Comes}
use lexicode.Sched.Clock.{left, wall_limit, wall_deadline, wall_remaining, set_parked}
use lexicode.Sched.Clock.Laws.{
  History, worked, replay, recorded, waits_since, wall_remaining-worked,
}
use lexicode.Sched.Enqueue.{
  RunRequest, enqueue, load_request_rows, with_agent, agent_for, enqueue_rows, announce,
  insert_run_rows, queued_row,
}
use lexicode.Sched.Enqueue.Laws.{Serves, enqueue-ok, enqueue-err}
use lexicode.Tests.Sample.{a_run, agent_7, two_runs, in_world}

abbrev alone : Key → List (Db → Db)
alone id = []

alone-Legal : Legal alone
alone-Legal id = tt

-- Run 2 has a supervisor, run 1 has none.
abbrev kernel : Kernel
kernel = record {
  world = in_world two_runs;
  supervisors = new_supervisor 2 ∷ [];
  stopping = false;
  elicitations = [];
  items = [];
  stream = [];
  outputs = [];
  firings = [];
  revoked = [];
  woken = false;
}

▷-⇒*_example : board two_runs.runs ⇒* board (db_of (stop_run alone 3000 kernel 1 silence).0).runs
▷-⇒*_example = ▷-⇒* {k = kernel} (stops alone alone-Legal 3000 1 silence)

▷*-Comes_example :
    Comes (board (db_of (stop_run alone 3000 kernel 1 silence).0).runs) 1 2 RunState.running
    × (is_terminal RunState.running ≡ true
        → get_elem? (board (db_of (stop_run alone 3000 kernel 1 silence).0).runs) 1
          ≡ is_at 2 RunState.running)
▷*-Comes_example =
    ▷*-Comes {k = kernel} 1 2 RunState.running
      (then_step idle (stops alone alone-Legal 3000 1 silence)) refl

stop_run-unsupervised_example :
    ((stop_run alone 3000 kernel 1 silence).1 ≡ ok tt)
    × ((x : Run) × (by_id (db_of (stop_run alone 3000 kernel 1 silence).0) 1 ≡ ok x)
        × (x.state ≡ RunState.canceled)
        × (x.state_reason ≡ silence))
stop_run-unsupervised_example =
    stop_run-unsupervised alone 3000 1 silence (a_run 1 RunState.queued) refl refl kernel
      (unfold by_id in refl) refl (unfold supervisor_of in refl)

stop_run-supervised_example :
    (supervisor_of (stop_run alone 3000 kernel 2 silence).0 2
      ≡ some (stopped_by silence (new_supervisor 2)))
    × ((p : PreserveOutcome) (w : Waited)
        → (x : Run) × (by_id
              (db_of (
                session_over alone 3000
                  (a_run 2 RunState.running)
                  (stopped_by silence (new_supervisor 2))
                  p
                  w
                  (stop_run alone 3000 kernel 2 silence).0))
              2
            ≡ ok x)
          × (x.state ≡ RunState.canceled)
          × (x.state_reason ≡ silence))
stop_run-supervised_example =
    stop_run-supervised alone 3000 silence (a_run 2 RunState.running) refl refl kernel
      (new_supervisor 2) (unfold by_id in refl) refl (unfold supervisor_of in refl) refl refl

-- The run started at 1000 and has waited since 50000 when a new supervisor takes it up at 61000; it resumes
-- at 90000.
abbrev history : History
history = (90000, false) ∷ []

abbrev started : Run
started = record (a_run 2 RunState.running) { started_at = some 1000 }

abbrev reattached : Supervisor
reattached = record (new_supervisor 2) { parked = true; parked_since = some 50000 }

on_again : (replay history reattached).parked ≡ false
unfolding replay set_parked
on_again = refl

wall_remaining-worked_example :
    (wall_remaining 150000 (wall_deadline 61000 started 120) (replay history reattached) ≡ left 0)
    ↔ (wall_limit 120 ≤ (50000 - 1000) + worked true 61000 history 150000)
wall_remaining-worked_example =
    wall_remaining-worked started 61000 1000 50000 120 history 150000 reattached (recorded refl)
      (omega arith) refl (waits_since refl refl (omega arith)) (omega arith, omega arith) on_again

abbrev request : RunRequest
request = record {
  project_id = 1;
  agent_id = 7;
  ticket_id = 30;
  reason = said 3;
  requested_by_user_id = 0;
  trigger_id = 0;
  cause_event_id = 0;
  parent_run_id = 0;
  subject_key = 0;
  depth = 2;
  superseded_run_id = 0;
}

abbrev subject : Option Ticket → Key
subject t = 900

abbrev context : RunRequest → Agent → Option Ticket → Result SchedError (List Key)
context req agent t = ok (501 ∷ [])

enqueues :
    (enqueue alone 3000 77 88 subject context kernel request).1
    ≡ ok (queued_row 77 3000 3 900 request agent_7)
unfolding enqueue load_request_rows with_agent agent_for enqueue_rows announce agent_by_id
    ticket_by_id insert_run_rows
enqueues = refl

enqueue-ok_example :
    let run = queued_row 77 3000 3 900 request agent_7 in
    (run.state ≡ RunState.queued)
    × (run.project_id ≡ 1)
    × (run.depth ≡ 2)
    × (run.queued_at ≡ 3000)
    × ((agent : Agent) × Serves request agent × (run.agent_id ≡ agent.id))
    × All (λ (r : Run). r.project_id ≡ 1 → r.seq < run.seq) two_runs.runs
enqueue-ok_example = enqueue-ok alone 3000 77 88 subject context kernel request enqueues

abbrev foreign : RunRequest
foreign = record request { ticket_id = 99 }

declines :
    (enqueue alone 3000 77 88 subject context kernel foreign).1 ≡ err (store StoreError.not_found)
unfolding enqueue load_request_rows with_agent agent_for enqueue_rows announce agent_by_id
    ticket_by_id
declines = refl

enqueue-err_example : (enqueue alone 3000 77 88 subject context kernel foreign).0 ≡ kernel
enqueue-err_example = enqueue-err alone 3000 77 88 subject context kernel foreign refl declines
