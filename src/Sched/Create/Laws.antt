-- ===== src/Sched/Create/Laws.antt =====
-- What `EnqueueLoopStopped` and `NextSeq` of internal/kernel guarantee.
use lexicode.Prelude.{ℕ, ◌<◌, ◌≡◌, List, [], ◌∷◌, ◌++◌, none, some, ok, All, arith}
use lexicode.Domain.RunState.{loop_stopped}
use lexicode.Domain.Words.{Key, Time}
use lexicode.Domain.Rows.{Run}
use lexicode.Store.Db.{Db}
use lexicode.Sched.World.{World}
use lexicode.Sched.Create.{
  max_seq, next_seq, LoopStoppedRun, announce_stopped, insert_stopped, enqueue_loop_stopped,
}

max_seq-lt :
    (project : Key) (runs : List Run) (b : ℕ)
    → max_seq project runs < b
    → All (λ (r : Run). r.project_id ≡ project → r.seq < b) runs
unfolding max_seq
max_seq-lt project [] b h = tt
max_seq-lt project (r ∷ rs) b h = (ground arith, max_seq-lt project rs b (ground arith))

-- The number that a new run gets is above the numbers of all runs of its project.
pub next_seq-fresh :
    (db : Db) (project : Key) {n : ℕ}
    → next_seq db project ≡ ok n
    → All (λ (r : Run). r.project_id ≡ project → r.seq < n) db.runs
unfolding next_seq
next_seq-fresh db project {n} h =
    let above : max_seq project db.runs < n = ground arith in max_seq-lt project db.runs n (above)

-- A recorded loop stop is a row at the end of the table, terminal from the start: in the state
-- loop_stopped, ended when it was queued, with no container and no cost, and the depth and subject
-- of the request.
pub enqueue_loop_stopped-row :
    (id : Key) (now : Time) (w : World) (req : LoopStoppedRun) {run : Run}
    → (enqueue_loop_stopped id now w req).1 ≡ ok run
    → ((enqueue_loop_stopped id now w req).0.db.runs ≡ w.db.runs ++ run ∷ [])
      × (run.state ≡ loop_stopped)
      × (run.ended_at ≡ some run.queued_at)
      × (run.container_id ≡ none)
      × (run.cost_cents ≡ 0)
      × (run.depth ≡ req.depth)
      × (run.subject_key ≡ req.subject_key)
unfolding enqueue_loop_stopped insert_stopped announce_stopped
enqueue_loop_stopped-row id now w req {run} h = ground arith
