-- ===== src/Tests/Guard.antt =====
-- The loop guard's theorems at the firings of two events.
use lexicode.Prelude.{
  ℕ, ◌-◌, ◌*◌, ◌≤◌, ◌<◌, ◌≡◌, ◌≢◌, refl, true, false, [], ◌∷◌, ◌++◌, none, some, ok, All, arith,
}
use lexicode.Domain.RunState.{RunState}
use lexicode.Domain.Payload.{Json, text, obj, end, field, codes}
use lexicode.Domain.Rows.{Run}
use lexicode.Store.Db.{event_by_id, project_by_id, agent_by_id}
use lexicode.Store.Runs.{by_id}
use lexicode.Store.Budget.{project_day}
use lexicode.Store.Queries.{newest_human_action_at, latest_on_subject, active_on_subject}
use lexicode.Sched.World.{World}
use lexicode.Guard.{missing, fields, load_config, Input, GuardPass, proceed}
use lexicode.Guard.SkipToken.{has_skip_token, review_id_of}
use lexicode.Guard.Chain.{hop_cap, climb, reset_of, chain_depth}
use lexicode.Guard.Chain.Laws.{Chain, chain_depth-Chain}
use lexicode.Guard.Budget.{check_budget, ceiling_of}
use lexicode.Guard.Layers.{evaluate, is_suppressed, absorb, superseded, depth_layer, budget_layer}
use lexicode.Guard.Layers.Passed.{passed-actor, passed-window, passed-Chain, passed-budget}
use lexicode.Guard.Layers.Stopped.{
  Reaches, StopsLoop, Unstopped, evaluate-StopsLoop, evaluate-over_cap,
}
use lexicode.Tests.Sample.{event_12, two_runs, in_world, firing}

abbrev world : World
world = in_world two_runs

reset : reset_of two_runs event_12 ≡ ok none
unfolding reset_of newest_human_action_at
reset = refl

depth_1 : chain_depth two_runs event_12 900 ≡ ok 1
unfolding chain_depth climb newest_human_action_at by_id event_by_id
depth_1 = refl

chain_depth-Chain_example :
    (1 ≤ hop_cap)
    × Chain two_runs none 900 event_12 1
    × ((n : ℕ) → n ≤ hop_cap → Chain two_runs none 900 event_12 n → n ≤ 1)
chain_depth-Chain_example = chain_depth-Chain two_runs event_12 900 none {d = 1} reset depth_1

-- The firing of event 12, of an agent that the rule does not run, an hour later.
abbrev passing : Input
passing = firing missing event_12 (8 ∷ [])

abbrev pass : GuardPass
pass = record { subject_key = 900; depth = 1; superseded_run_id = some 2 }

proceeds : (evaluate false 77 3601000 4 world passing).1 ≡ proceed pass
unfolding evaluate depth_layer budget_layer chain_depth climb check_budget superseded has_skip_token
    is_suppressed absorb review_id_of latest_on_subject newest_human_action_at by_id event_by_id
    project_by_id project_day agent_by_id active_on_subject
proceeds = refl

passed-actor_example : All (λ (id : ℕ). id ≢ 7) (8 ∷ [])
passed-actor_example =
    passed-actor false 77 3601000 4 world passing {p = pass} 7 proceeds (unfold load_config in refl)
      (omega arith) refl refl

passed-window_example :
    All
      (λ (r : Run).
        r.trigger_id ≡ some 5
        → r.subject_key ≡ 900
        → 3601000 - 1000 * (load_config missing).debounce_seconds ≤ r.queued_at
        → r.state ≡ RunState.loop_stopped)
      two_runs.runs
passed-window_example =
    passed-window false 77 3601000 4 world passing {p = pass} proceeds
      (unfold load_config in omega arith) refl

passed-Chain_example : 1 < (load_config missing).depth_limit
passed-Chain_example =
    passed-Chain false 77 3601000 4 world passing {p = pass} none 1 1 proceeds
      (unfold load_config in omega arith) reset depth_1 (omega arith) chain_depth-Chain_example.1

abbrev looping : Input
looping = firing (fields none none none (some 1) none) event_12 (8 ∷ [])

looping-Reaches : Reaches 3601000 world looping
unfolding has_skip_token is_suppressed absorb review_id_of latest_on_subject load_config
looping-Reaches = record { no_skip = refl; no_actor = refl; no_debounce = refl }

evaluate-StopsLoop_example :
    ((load_config looping.trigger.loop_config).depth_limit ≤ 1
      → StopsLoop true 77 3601000 world looping 1
          (load_config looping.trigger.loop_config).depth_limit
          (evaluate true 77 3601000 4 world looping))
    × (1 < (load_config looping.trigger.loop_config).depth_limit
        → Unstopped world (evaluate true 77 3601000 4 world looping))
evaluate-StopsLoop_example =
    evaluate-StopsLoop true 77 3601000 4 world looping looping-Reaches
      (unfold load_config in omega arith) depth_1

evaluate-over_cap_example : Unstopped world (
    evaluate true 77 3601000 4 world
      (firing (fields none none none (some 65) none) event_12 (8 ∷ [])))
evaluate-over_cap_example =
    evaluate-over_cap true 77 3601000 4 world
      (firing (fields none none none (some 65) none) event_12 (8 ∷ []))
      (unfold load_config in omega arith)

abbrev skipped : Json
skipped = obj (
    field (codes "comment")
      (obj (field (codes "body") (text (codes "please " ++ (codes "Skip-Agent" ++ codes "s"))) end))
      end)

reads_project :
    project_by_id two_runs 1 ≡ ok (record { id = 1; name = 100; daily_budget_cents = some 1000 })
unfolding project_by_id
reads_project = refl

reads_spend : project_day two_runs 4 1 ≡ ok 30
unfolding project_day
reads_spend = refl

passed-budget_example :
    30 < ceiling_of two_runs (record { id = 1; name = 100; daily_budget_cents = some 1000 })
passed-budget_example =
    passed-budget false 77 3601000 4 world passing {p = pass}
      (record { id = 1; name = 100; daily_budget_cents = some 1000 }) 30 proceeds reads_project
      (unfold ceiling_of in omega arith) reads_spend
