-- ===== src/Sched/Enqueue/Laws.antt =====
-- What `Enqueue` of internal/kernel/sched/scheduler.go guarantees.
use lexicode.Prelude.{
  ℕ, ◌<◌, ◌≡◌, refl, ◌∙◌, true, false, Bool-cases, Result-cases, inl, inr, List, Option, none,
  Result, ok, err, All, ◌==◌, ◌||◌, arith,
}
use lexicode.Domain.RunState.{queued}
use lexicode.Domain.Words.{Key, blank, Time}
use lexicode.Domain.Rows.{Run, Agent, Ticket}
use lexicode.Store.Db.{Db, Query, agent_by_id}
use lexicode.Sched.World.{SchedError}
use lexicode.Sched.Create.{next_seq, create_run}
use lexicode.Sched.Create.Laws.{next_seq-fresh}
use lexicode.Sched.Kernel.{Kernel, db_of}
use lexicode.Sched.Board.Births.{insert_run_rows-ok}
use lexicode.Sched.Enqueue.{
  RunRequest, load_request_rows, with_agent, with_ticket, agent_for, ticket_for, subject_of,
  queued_row, insert_run_rows, announce, enqueue_rows, enqueue,
}

-- The agent that a request is let through with: of the project, enabled and not archived.
pub record Serves (req : RunRequest) (agent : Agent) : Type 0 where
  pub project : agent.project_id ≡ req.project_id
  pub enabled : agent.enabled ≡ true
  pub present : agent.archived_at ≡ none

agent_for-ok :
    (req : RunRequest) (a : Agent) {agent : Agent} → agent_for req a ≡ ok agent → Serves req agent
unfolding agent_for
agent_for-ok req a {agent} h = ground arith

with_agent-ok :
    (db : Db) (req : RunRequest) (a : Result SchedError Agent) {agent : Agent}
    {ticket : Option Ticket}
    → with_agent db req a ≡ ok (agent, ticket)
    → a ≡ ok agent
unfolding with_agent with_ticket
with_agent-ok db req (err e) h = cc
with_agent-ok db req (ok a) h = ground (arith, Result-cases (ticket_for db req))

load_request_rows-ok :
    (db : Db) (req : RunRequest) {agent : Agent} {ticket : Option Ticket}
    → load_request_rows db req ≡ ok (agent, ticket)
    → Serves req agent
unfolding load_request_rows
load_request_rows-ok db req {agent} {ticket} h =
    elim (Bool-cases (req.project_id == blank || req.agent_id == blank)) [
      | inl e ↦ cc (rw (e, load_request_rows) at h)
      | inr e ↦ elim (Result-cases (agent_by_id db req.agent_id)) [
        | inr (x, f) ↦ cc (rw f at (rw (e, load_request_rows) at h))
        | inl (a, f) ↦
            agent_for-ok req a
              (with_agent-ok db req (agent_for req a) (rw f at (rw (e, load_request_rows) at h)))
      ]
    ]

create_run-outage :
    (db : Db) (run : Run) (q : Query) {db' : Db}
    → create_run db run ≡ ok db'
    → db'.outage q ≡ db.outage q
unfolding create_run
create_run-outage db run q {db'} h = ground (arith, h)

module _ (races : Key → List (Db → Db)) (now : Time) (id entry : Key)
    (subject_key : Option Ticket → Key)
    (assemble : RunRequest → Agent → Option Ticket → Result SchedError (List Key)) where
  announce-ok :
      (k : Kernel) (req : RunRequest) (row : Run) {run : Run}
      → (announce races now id entry subject_key assemble k req row).1 ≡ ok run
      → run ≡ row
  unfolding announce
  announce-ok k req row {run} h = ground arith

  announce-up :
      (k : Kernel) (req : RunRequest) (row : Run) {e : SchedError}
      → (db_of k).outage Query.audit_write ≡ false
      → (announce races now id entry subject_key assemble k req row).1 ≡ err e
      → ⊥
  unfolding announce
  announce-up k req row up h = cc (rw (up, announce) at h)

  enqueue_rows-err :
      (k : Kernel) (req : RunRequest) (agent : Agent) (ticket : Option Ticket)
      (ids : Result SchedError (List Key)) {e : SchedError}
      → (db_of k).outage Query.audit_write ≡ false
      → (enqueue_rows races now id entry subject_key assemble k req agent ticket ids).1 ≡ err e
      → (enqueue_rows races now id entry subject_key assemble k req agent ticket ids).0 ≡ k
  unfolding enqueue_rows
  enqueue_rows-err k req agent ticket (err x) up h = refl
  enqueue_rows-err k req agent ticket (ok ids) up h =
      let subject = subject_of subject_key req ticket in
      elim (Result-cases (insert_run_rows id entry now subject k req agent ticket ids)) [
        | inr (x, f) ↦ rw (f, enqueue_rows) refl
        | inl ((k', run), f) ↦
            let (seq, n, row, made) =
              insert_run_rows-ok id entry now subject k req agent ticket ids f in
            absurd (
              announce-up k' req run (create_run-outage (db_of k) run Query.audit_write made ∙ up)
                (rw (f, enqueue_rows) at h))
      ]

  enqueue_rows-ok :
      (k : Kernel) (req : RunRequest) (agent : Agent) (ticket : Option Ticket)
      (ids : Result SchedError (List Key)) {run : Run}
      → (enqueue_rows races now id entry subject_key assemble k req agent ticket ids).1 ≡ ok run
      → (seq : ℕ) × (next_seq (db_of k) req.project_id ≡ ok seq)
        × (run ≡ queued_row id now seq (subject_of subject_key req ticket) req agent)
  unfolding enqueue_rows
  enqueue_rows-ok k req agent ticket (err x) h = cc
  enqueue_rows-ok k req agent ticket (ok ids) h =
      let subject = subject_of subject_key req ticket in
      elim (Result-cases (insert_run_rows id entry now subject k req agent ticket ids)) [
        | inr (x, f) ↦ cc (rw (f, enqueue_rows) at h)
        | inl ((k', row), f) ↦
            let (seq, n, is_row, made) =
              insert_run_rows-ok id entry now subject k req agent ticket ids f in
            (seq, n, announce-ok k' req row (rw (f, enqueue_rows) at h) ∙ is_row)
      ]

  -- With the audit log up, a request that is refused leaves everything as it was: the run, its context
  -- items and the card of its ticket are written together or not at all.
  pub enqueue-err :
      (k : Kernel) (req : RunRequest) {e : SchedError}
      → (db_of k).outage Query.audit_write ≡ false
      → (enqueue races now id entry subject_key assemble k req).1 ≡ err e
      → (enqueue races now id entry subject_key assemble k req).0 ≡ k
  unfolding enqueue
  enqueue-err k req up h = elim (Result-cases (load_request_rows (db_of k) req)) [
    | inr (x, e) ↦ rw (e, enqueue) refl
    | inl ((agent, ticket), e) ↦
        rw (e, enqueue)
          (enqueue_rows-err k req agent ticket (assemble req agent ticket) up
            (rw (e, enqueue) at h))
  ]

  -- A request that succeeds answers a queued run, for an enabled agent of the project that is not
  -- archived, queued now, with the depth of the request and a number above those of all runs of the
  -- project.
  pub enqueue-ok :
      (k : Kernel) (req : RunRequest) {run : Run}
      → (enqueue races now id entry subject_key assemble k req).1 ≡ ok run
      → (run.state ≡ queued)
        × (run.project_id ≡ req.project_id)
        × (run.depth ≡ req.depth)
        × (run.queued_at ≡ now)
        × ((agent : Agent) × Serves req agent × (run.agent_id ≡ agent.id))
        × All (λ (r : Run). r.project_id ≡ req.project_id → r.seq < run.seq) (db_of k).runs
  unfolding enqueue
  enqueue-ok k req {run} h = elim (Result-cases (load_request_rows (db_of k) req)) [
    | inr (x, e) ↦ cc (rw (e, enqueue) at h)
    | inl ((agent, ticket), e) ↦
        let (seq, n, row) =
          enqueue_rows-ok k req agent ticket (assemble req agent ticket) (rw (e, enqueue) at h) in
        rw row (
          unfold queued_row in
          (
            refl,
            refl,
            refl,
            refl,
            (agent, load_request_rows-ok (db_of k) req e, refl),
            next_seq-fresh (db_of k) req.project_id n,
          ))
  ]
