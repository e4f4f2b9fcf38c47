-- ===== src/Sched/Supervise.antt =====
-- internal/kernel/sched/supervisor.go: the life of a supervised run, from its provisioning to the
-- terminal path. What the sandbox and the agent runtime answer are arguments, and so is what
-- preserve.go made of the workspace. The moves of the ticket, when a run starts and when it completes, and
-- the pull request of a completed run are calls of other services and are left out.
use lexicode.Prelude.{
  ℕ, Bool, false, not, ◌&&◌, ◌||◌, List, [], ◌∷◌, ◌++◌, none, some, ok, err, ◌==◌, if◌then◌else◌,
  select,
}
use lexicode.Domain.RunState.{RunState, running, completed, failed, timed_out, canceled, same_state}
use lexicode.Domain.Words.{
  Key, blank, Time, Words, silence, said, runtime_error, agent_failed, process_exited,
  agent_missing, agent_gone, provisioning_failed, launch_failed, canceled_line, nothing_held,
  failed_after, timed_out_after, pushed_to, not_pushed, push_failed, not_preserved, joined,
}
use lexicode.Domain.Rows.{Run}
use lexicode.Store.Db.{Db, Query}
use lexicode.Store.Runs.{no_update, by_id, set_provisioned}
use lexicode.Sched.States.{Round, transition}
use lexicode.Sched.Kernel.{
  Supervisor, supervises, Kernel, db_of, wake, revoke, cancel_pending_elicitations, drop_messages,
  with_supervisor,
}
use lexicode.Sched.Stop.{set_handle}
use lexicode.Sched.Enqueue.{with_db}

-- `waitOutcome`; a blank text is none.
pub data Waited : Type 0 where
  broke : (message : Key) → Waited
  ended : (is_error : Bool) (exit_code : ℕ) (text : Key) → Waited

-- The terminal state, the reason and the message of a run.
abbrev pub Ending : Type 0
Ending = RunState × Words × Words

unfoldable pub session_ending : Waited → Ending
session_ending (broke message) = (failed, runtime_error, said message)
session_ending (ended is_error exit_code text) =
    if is_error || not (exit_code == 0)
    then (failed, agent_failed, (if text == blank then process_exited exit_code else said text))
    else (completed, silence, said text)

-- `outcomeOf`: a stop that was asked for decides the outcome.
unfoldable pub outcome_of : Supervisor → Waited → Ending
unfolding session_ending
outcome_of sup w = elim sup.stop [ some (kind, why) ↦ (kind, why, why) | none ↦ session_ending w ]

-- `preserveOutcome`
pub record PreserveOutcome : Type 0 where
  pub attempted : Bool
  pub nothing : Bool
  pub committed : Bool
  pub pushed : Bool
  pub branch : Key
  pub failure : Key

unfoldable pub preserve_clause : PreserveOutcome → Words
preserve_clause p =
    if not p.attempted
    then silence
    else if p.pushed
    then pushed_to p.branch
    else if not (p.failure == blank) && p.committed
    then not_pushed p.branch p.failure
    else if not (p.failure == blank)
    then not_preserved p.failure
    else if p.nothing
    then nothing_held
    else silence

unfoldable pub opening : RunState → Run → Words
opening failed run = failed_after run.step_count
opening timed_out run = timed_out_after run.step_count
opening canceled run = canceled_line
opening _ run = silence

-- `terminalMessage`, as its opening, the message and the last clause.
unfoldable pub terminal_message : RunState → Run → Words → PreserveOutcome → Words
unfolding preserve_clause opening
terminal_message kind run message p =
    if same_state kind completed
    then joined silence message
        (if p.attempted && not (p.failure == blank) then push_failed p.failure else silence)
    else joined (opening kind run) message (preserve_clause p)

-- `recordPartialWork`
unfoldable pub record_partial_work : Time → Key → (branch : Key) → Kernel → Kernel
record_partial_work now id branch k = if (db_of k).outage Query.append_output then k else record k {
  outputs = k.outputs ++ record { run_id = id; ref = branch; created_at = now } ∷ [];
}

-- The row as it is now, or as it was.
unfoldable pub fresh_run : Db → Run → Run
unfolding by_id
fresh_run db run = elim (by_id db run.id) [ ok r ↦ r | err e ↦ run ]

-- What the goroutine of a supervisor does when it returns.
unfoldable pub forget : Key → Kernel → Kernel
unfolding select
forget id k = record k { supervisors = select (λ sup. not (supervises id sup)) k.supervisors }

-- The session has started.
unfoldable pub launched : Key → Kernel → Kernel
unfolding with_supervisor set_handle
launched id k = with_supervisor id set_handle k

module _ (races : Key → List (Db → Db)) (now : Time) where
  -- The teardown, the questions and the messages.
  unfoldable pub tear_down : Key → Kernel → Kernel
  tear_down id k = drop_messages id (cancel_pending_elicitations now id (revoke id k))

  unfoldable pub move_to : Key → RunState → (reason message : Words) → Kernel → Kernel
  move_to id kind reason message k =
      let u = record no_update { state_reason = some reason; error_message = some message } in
      record k { world = (transition (races id) now k.world id kind u).0 }

  -- `finish`
  unfoldable pub finish : Run → PreserveOutcome → Ending → Kernel → Kernel
  finish run p (kind, reason, message) k =
      let k' =
        if p.pushed && not (same_state kind completed)
        then record_partial_work now run.id p.branch k
        else k in
      let line = terminal_message kind (fresh_run (db_of k') run) message p in
      wake (move_to run.id kind reason line (tear_down run.id k'))

  -- The session is over: nothing on a shutdown, else the terminal path.
  unfoldable pub session_over : Run → Supervisor → PreserveOutcome → Waited → Kernel → Kernel
  session_over run sup p w k =
      if k.stopping then forget run.id k else forget run.id (finish run p (outcome_of sup w) k)

  -- Provisioning or the launch failed: the same, where a stop decides a failed provisioning.
  unfoldable pub provision_over :
      Run → Supervisor → PreserveOutcome → (message : Key) → Kernel → Kernel
  provision_over run sup p message k = if k.stopping then forget run.id k else elim sup.stop [
    | some (kind, why) ↦ forget run.id (finish run p (kind, why, why) k)
    | none ↦ forget run.id (finish run p (failed, provisioning_failed, said message) k)
  ]

  unfoldable pub launch_over : Run → PreserveOutcome → (message : Key) → Kernel → Kernel
  launch_over run p message k =
      if k.stopping
      then forget run.id k
      else forget run.id (finish run p (failed, launch_failed, said message) k)

  -- The agent of the run is gone: `finishWithoutInstance`.
  unfoldable pub unmanned : Run → Kernel → Kernel
  unmanned run k =
      let nothing_done : PreserveOutcome = record {
        attempted = false;
        nothing = false;
        committed = false;
        pushed = false;
        branch = blank;
        failure = blank;
      } in
      forget run.id (finish run nothing_done (failed, agent_missing, agent_gone) k)

  -- The end of `provision`: the instance is written down, a failure is logged, and the run runs.
  unfoldable pub provisioned : Run → (instance_id branch : Key) → Kernel → Kernel × Round
  unfolding set_provisioned with_db
  provisioned run instance_id branch k =
      let k' = with_db k (set_provisioned (db_of k) run.id instance_id blank branch blank).0 in
      let (w, res) =
        transition (races run.id) now k'.world run.id running
          (record no_update { started_at = some now }) in
      (record k' { world = w }, res)
