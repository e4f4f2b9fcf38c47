-- ===== src/Tests/Sched.antt =====
-- The scheduler's theorems at a queued and a running run.
use Prim.Native.Nat.{max}
use lexicode.Prelude.{
  ◌+◌, ◌≤◌, ◌↔◌, ◌≡◌, ◌≢◌, refl, true, false, [], ◌∷◌, some, ok, err, arith, ◌⊎◌,
}
use lexicode.Domain.RunState.{RunState}
use lexicode.Domain.Words.{silence}
use lexicode.Domain.Rows.{Run}
use lexicode.Store.Db.{agent_by_id}
use lexicode.Store.Runs.{no_update}
use lexicode.Store.Queries.{tickets_in_column}
use lexicode.Sched.World.{World, illegal}
use lexicode.Sched.Machine.{transition_legal, IsDrawn, IsUndrawn, transition_legal_iff-IsDrawn}
use lexicode.Sched.States.{settled, lost, round, transition}
use lexicode.Sched.States.Effect.{transition-err}
use lexicode.Sched.States.Settles.{transition-settles}
use lexicode.Sched.States.Advance.{Evolves, transition-Evolves}
use lexicode.Sched.Admission.{Counters, clear, counted, wip_at, admit, admit_pass}
use lexicode.Sched.Admission.Slots.{slots, quiet}
use lexicode.Sched.Admission.Capacity.{admit_pass-slots}
use lexicode.Sched.Admission.Wip.{wip_at-after_own}
use lexicode.Sched.Create.{
  LoopStoppedRun, loop_stopped_row, next_seq, announce_stopped, insert_stopped,
  enqueue_loop_stopped,
}
use lexicode.Tests.Sample.{
  a_run, agent_7, column_40, column_50, two_runs, two_runs-HasKeys, in_world,
}

abbrev world : World
world = in_world two_runs

admit_pass-slots_example :
    slots (admit_pass quiet 3000 4 (λ r. false) world).db ≤ max 2 (slots two_runs)
admit_pass-slots_example = admit_pass-slots 3000 4 (λ r. false) world two_runs-HasKeys (omega arith)

transition-Evolves_example :
    Evolves two_runs (transition [] 3000 world 1 RunState.provisioning no_update).0.db
transition-Evolves_example = transition-Evolves [] 3000 world 1 RunState.provisioning no_update tt

transition-settles_example :
    (transition ((λ db. db) ∷ []) 3000 world 1 RunState.provisioning no_update).1 ≢ lost
transition-settles_example =
    transition-settles ((λ db. db) ∷ []) 3000 world 1 RunState.provisioning no_update

abbrev run_provisioned : Run
run_provisioned = record (a_run 1 RunState.provisioning) { hold_reason = silence }

admits :
    (transition [] 3000 world 1 RunState.provisioning no_update).1 ≡ settled (ok run_provisioned)
unfolding transition round transition_legal
admits = refl

refuses :
    (transition [] 3000 world 2 RunState.provisioning no_update).1
    ≡ settled (err (illegal RunState.running RunState.provisioning))
unfolding transition round transition_legal
refuses = refl

transition-err_example :
    (transition [] 3000 world 2 RunState.provisioning no_update).0.db ≡ two_runs
transition-err_example =
    transition-err 3000 world 2 RunState.provisioning no_update
      {x = illegal RunState.running RunState.provisioning} refuses

transition_legal_iff-IsDrawn_example : (transition_legal RunState.queued RunState.failed ≡ true) ↔ (
    (RunState.failed ≢ RunState.loop_stopped)
    × (IsDrawn RunState.queued RunState.failed ⊎ IsUndrawn RunState.queued RunState.failed))
transition_legal_iff-IsDrawn_example = transition_legal_iff-IsDrawn RunState.queued RunState.failed

abbrev fresh : Counters
fresh = record { by_agent = λ a. 0; global = 0; column_tickets = [] }

three_tickets : tickets_in_column two_runs 40 ≡ ok 3
unfolding tickets_in_column
three_tickets = refl

admits_1 :
    (admit quiet 3000 4 world (a_run 1 RunState.queued) agent_7 (some column_40) fresh).1.global
    ≡ fresh.global + 1
unfolding admit transition round transition_legal
admits_1 = refl

wip_at-after_own_example :
    (wip_at two_runs column_40 column_40 fresh ≡ (ok (clear (some column_40)), fresh))
    × ((wip_at two_runs column_50 column_40
          (admit quiet 3000 4 world (a_run 1 RunState.queued) agent_7 (some column_40) fresh).1).0
        ≡ ok (clear (some column_40)))
wip_at-after_own_example =
    wip_at-after_own quiet 3000 4 world (a_run 1 RunState.queued) agent_7 column_50 column_40 2
      fresh refl (omega arith) (omega arith) (unfold counted in refl) admits_1 two_runs

abbrev stopped_request : LoopStoppedRun
stopped_request = record {
  project_id = 1;
  agent_id = 7;
  trigger_id = 5;
  cause_event_id = 12;
  subject_key = 900;
  depth = 3;
  reason = silence;
}

records :
    (enqueue_loop_stopped 77 3000 world stopped_request).1
    ≡ ok (loop_stopped_row 77 3000 3 stopped_request)
unfolding enqueue_loop_stopped insert_stopped announce_stopped agent_by_id
records = refl

numbers : next_seq two_runs 1 ≡ ok 3
unfolding next_seq
numbers = refl
