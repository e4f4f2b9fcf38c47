-- ===== src/Sched/Reconcile.antt =====
-- internal/kernel/sched/reconcile.go: the recovery after a crash. Whether the sandbox finds the instance of
-- a run again is the argument `reattaches`. The token and the proxy are told of a reattached run outside
-- the state that is modelled.
use lexicode.Prelude.{
  Bool, true, false, List, [], ◌∷◌, Option, none, some, Result, ok, err, ◌==◌, if◌then◌else◌,
}
use lexicode.Domain.RunState.{
  RunState, provisioning, running, needs_input, awaiting_approval, failed, same_state,
}
use lexicode.Domain.Words.{Key, blank, Time, restarted, container_gone}
use lexicode.Domain.Rows.{Run}
use lexicode.Store.Db.{Db, StoreError}
use lexicode.Store.Runs.{no_update}
use lexicode.Store.Queries.{by_states}
use lexicode.Sched.States.{transition}
use lexicode.Sched.Kernel.{
  Kernel, db_of, supervise_from, cancel_pending_elicitations, drop_messages,
}
use lexicode.Sched.Supervise.{record_partial_work, move_to}

abbrev pub present : Option Key → Option Key
present none = none
present (some k) = if k == blank then none else some k

abbrev pub is_parked : RunState → Bool
is_parked needs_input = true
is_parked awaiting_approval = true
is_parked _ = false

module _ (races : Key → List (Db → Db)) (now : Time) (reattaches : Run → Bool) where
  -- `tryReattach`
  unfoldable pub try_reattach : Run → Bool
  try_reattach run = elim (present run.instance_id) [ none ↦ false | some i ↦ reattaches run ]

  -- A dead container.
  unfoldable pub bury : Run → Kernel → Kernel
  bury run k =
      let k' : Kernel = elim (present run.branch) [
        | none ↦ k
        | some branch ↦ record_partial_work now run.id branch k
      ] in
      drop_messages run.id (
        cancel_pending_elicitations now run.id
          (move_to races now run.id failed restarted (container_gone (present run.branch)) k'))

  -- A surviving container.
  unfoldable pub reattach : Run → Kernel → Kernel
  reattach run k =
      let w =
        (transition (races run.id) now k.world run.id running
          (record no_update { started_at = some now })).0 in
      supervise_from run.id
        (if same_state run.state provisioning then record k { world = w } else k)

  -- `reconcileOne`
  unfoldable pub reconcile_one : Run → Kernel → Kernel
  reconcile_one run k =
      if try_reattach run then reattach run k else if is_parked run.state then k else bury run k

  unfoldable pub reconcile_all : List Run → Kernel → Kernel
  reconcile_all [] k = k
  reconcile_all (run ∷ runs) k = reconcile_all runs (reconcile_one run k)

  -- `reconcile`
  unfoldable pub reconcile : Kernel → Kernel × Result StoreError (Unit {0})
  unfolding by_states reconcile_all
  reconcile k =
      elim (by_states (db_of k) (provisioning ∷ running ∷ needs_input ∷ awaiting_approval ∷ [])) [
        | err e ↦ (k, err e)
        | ok runs ↦ (reconcile_all runs k, ok tt)
      ]
