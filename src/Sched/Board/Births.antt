-- ===== src/Sched/Board/Births.antt =====
-- `Enqueue` and `EnqueueLoopStopped` of internal/kernel/sched/scheduler.go on the board.
use lexicode.Prelude.{
  subst, sym, ℕ, ◌≡◌, refl, Bool-cases, Result-cases, inl, inr, List, [], ◌∷◌, Option, none, some,
  Result, ok, err, arith, ◌==◌,
}
use lexicode.Domain.Words.{Key, blank, Time, superseded_by}
use lexicode.Domain.Rows.{Run, Agent, Ticket}
use lexicode.Store.Db.{Db, Query}
use lexicode.Sched.World.{World, SchedError, audited, published}
use lexicode.Sched.Create.{
  create_run, next_seq, LoopStoppedRun, loop_stopped_row, announce_stopped, insert_stopped,
  enqueue_loop_stopped,
}
use lexicode.Sched.Kernel.{Kernel, db_of, wake}
use lexicode.Sched.Stop.{stop_run}
use lexicode.Sched.Enqueue.{
  RunRequest, load_request_rows, subject_of, queued_row, add_items, add_card, add_details, with_db,
  add_run, insert_run_rows, mark_superseded, stop_superseded, announce, enqueue_rows, enqueue,
  publish_run, log_enqueue,
}
use lexicode.Sched.Board.{Board, asked, refused}
use lexicode.Sched.Board.Writes.{Grows, Legal, create_run-Grows}
use lexicode.Sched.Board.Stops.{stop_run-Grows}

module _ (b : Board) where
  announce_stopped-db : (w : World) (run : Run) → (announce_stopped w run).0.db ≡ w.db
  unfolding announce_stopped audited published
  announce_stopped-db w run = ground arith

  insert_stopped-Grows :
      (id : Key) (now : Time) (w : World) (req : LoopStoppedRun)
      → Grows b w.db
      → Grows b (insert_stopped id now w req).0.db
  unfolding insert_stopped
  insert_stopped-Grows id now w req g = elim (Result-cases (next_seq w.db req.project_id)) [
    | inr (x, e) ↦ rw (e, insert_stopped) g
    | inl (seq, e) ↦
        let run = loop_stopped_row id now seq req in
        elim (Result-cases (create_run w.db run)) [
          | inr (x, c) ↦ rw (e, insert_stopped) (rw c g)
          | inl (db, c) ↦
              rw (e, insert_stopped)
                (rw c (
                  subst (Grows b) (sym (announce_stopped-db (record w { db = db }) run))
                    (create_run-Grows b w.db run (unfold loop_stopped_row in refused) c g)))
        ]
  ]

  pub enqueue_loop_stopped-Grows :
      (id : Key) (now : Time) (w : World) (req : LoopStoppedRun)
      → Grows b w.db
      → Grows b (enqueue_loop_stopped id now w req).0.db
  unfolding enqueue_loop_stopped
  enqueue_loop_stopped-Grows id now w req g = grind (arith, insert_stopped-Grows)

-- What the transaction writes beside the row is in other tables.
add_details-db :
    (entry : Key) (now : Time) (k : Kernel) (run : Run) (ticket : Option Ticket) (ids : List Key)
    {k' : Kernel}
    → add_details entry now k run ticket ids ≡ ok k'
    → db_of k' ≡ db_of k
unfolding add_details add_items add_card
add_details-db entry now k run none [] h = ground arith
add_details-db entry now k run (some t) [] h = ground arith
add_details-db entry now k run none (i ∷ is) h = ground arith
add_details-db entry now k run (some t) (i ∷ is) h = ground arith

pub add_run-db :
    (entry : Key) (now : Time) (k : Kernel) (run : Run) (ticket : Option Ticket) (ids : List Key)
    {k' : Kernel}
    → add_run entry now k run ticket ids ≡ ok k'
    → create_run (db_of k) run ≡ ok (db_of k')
unfolding add_run
add_run-db entry now k run ticket ids {k'} h = elim (Result-cases (create_run (db_of k) run)) [
  | inr (x, e) ↦ cc (rw (e, add_run) at h)
  | inl (db, e) ↦
      rw (e, add_details-db entry now (with_db k db) run ticket ids (rw (e, add_run) at h))
        (unfold with_db in refl)
]

pub insert_run_rows-ok :
    (id entry : Key) (now : Time) (subject : Key) (k : Kernel) (req : RunRequest) (agent : Agent)
    (ticket : Option Ticket) (ids : List Key) {k' : Kernel} {run : Run}
    → insert_run_rows id entry now subject k req agent ticket ids ≡ ok (k', run)
    → (seq : ℕ) × (next_seq (db_of k) req.project_id ≡ ok seq)
      × (run ≡ queued_row id now seq subject req agent)
      × (create_run (db_of k) run ≡ ok (db_of k'))
unfolding insert_run_rows
insert_run_rows-ok id entry now subject k req agent ticket ids {k'} {run} h =
    elim (Result-cases (next_seq (db_of k) req.project_id)) [
      | inr (x, e) ↦ cc (rw (e, insert_run_rows) at h)
      | inl (seq, e) ↦
          let row = queued_row id now seq subject req agent in
          elim (Result-cases (add_run entry now k row ticket ids)) [
            | inr (x, a) ↦ cc (rw a at (rw (e, insert_run_rows) at h))
            | inl (k'', a) ↦
                let same : (k' ≡ k'') × (run ≡ row) =
                  ground (arith, rw a at (rw (e, insert_run_rows) at h)) in
                (seq, e, same.1, rw (same.0, same.1) (add_run-db entry now k row ticket ids a))
          ]
    ]

module _ (races : Key → List (Db → Db)) (legal : Legal races) (now : Time) (id entry : Key)
    (subject_key : Option Ticket → Key)
    (assemble : RunRequest → Agent → Option Ticket → Result SchedError (List Key)) (b : Board) where
  mark_superseded-db :
      (k : Kernel) (req : RunRequest) (run : Run)
      → db_of (mark_superseded races now id entry subject_key assemble k req run) ≡ db_of k
  unfolding mark_superseded
  mark_superseded-db k req run = ground arith

  stop_superseded-Grows :
      (k : Kernel) (req : RunRequest) (run : Run)
      → Grows b (db_of k)
      → Grows b (db_of (stop_superseded races now id entry subject_key assemble k req run))
  unfolding stop_superseded
  stop_superseded-Grows k req run g = elim (Bool-cases (req.superseded_run_id == blank)) [
    | inl e ↦ rw (e, stop_superseded) g
    | inr e ↦
        rw (e, stop_superseded)
          (subst (Grows b)
            (sym (
              mark_superseded-db
                (stop_run races now k req.superseded_run_id (superseded_by run.seq)).0 req run))
            (stop_run-Grows races legal now b k req.superseded_run_id (superseded_by run.seq) g))
  ]

  log_enqueue-Grows :
      (run : Run) (k : Kernel) → Grows b (db_of k) → Grows b (db_of (log_enqueue run k))
  unfolding log_enqueue audited
  log_enqueue-Grows run k g = ground arith

  publish_run-Grows :
      (run : Run) (k : Kernel) → Grows b (db_of k) → Grows b (db_of (publish_run run k))
  unfolding publish_run published
  publish_run-Grows run k g = ground arith

  announce-Grows :
      (k : Kernel) (req : RunRequest) (run : Run)
      → Grows b (db_of k)
      → Grows b (db_of (announce races now id entry subject_key assemble k req run).0)
  unfolding announce wake
  announce-Grows k req run g = elim (Bool-cases ((db_of k).outage Query.audit_write)) [
    | inl e ↦ rw (e, announce) g
    | inr e ↦
        rw (e, announce)
          (publish_run-Grows run
            (stop_superseded races now id entry subject_key assemble (log_enqueue run k) req run)
            (stop_superseded-Grows (log_enqueue run k) req run (log_enqueue-Grows run k g)))
  ]

  enqueue_rows-Grows :
      (k : Kernel) (req : RunRequest) (agent : Agent) (ticket : Option Ticket)
      (ids : Result SchedError (List Key))
      → Grows b (db_of k)
      → Grows b
          (db_of (enqueue_rows races now id entry subject_key assemble k req agent ticket ids).0)
  unfolding enqueue_rows
  enqueue_rows-Grows k req agent ticket (err x) g = g
  enqueue_rows-Grows k req agent ticket (ok ids) g =
      let subject = subject_of subject_key req ticket in
      elim (Result-cases (insert_run_rows id entry now subject k req agent ticket ids)) [
        | inr (x, e) ↦ rw (e, enqueue_rows) g
        | inl ((k', run), e) ↦
            let (seq, n, row, made) =
              insert_run_rows-ok id entry now subject k req agent ticket ids e in
            rw (e, enqueue_rows)
              (announce-Grows k' req run
                (create_run-Grows b (db_of k) run (rw row (unfold queued_row in asked)) made g))
      ]

  pub enqueue-Grows :
      (k : Kernel) (req : RunRequest)
      → Grows b (db_of k)
      → Grows b (db_of (enqueue races now id entry subject_key assemble k req).0)
  unfolding enqueue
  enqueue-Grows k req g = elim (Result-cases (load_request_rows (db_of k) req)) [
    | inr (x, e) ↦ rw (e, enqueue) g
    | inl ((agent, ticket), e) ↦
        rw (e, enqueue) (enqueue_rows-Grows k req agent ticket (assemble req agent ticket) g)
  ]
