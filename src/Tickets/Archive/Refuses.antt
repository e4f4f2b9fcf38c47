-- ===== src/Tickets/Archive/Refuses.antt =====
-- What is refused for a card that has been archived.
use lexicode.Prelude.{
  ℕ, Bool, true, false, ◌||◌, List, [], ◌∷◌, Option, none, some, Result, ok, err, ◌==◌, ==_iff, ◌≡◌,
  ◌≢◌, ◌∙◌, ap, sym, inl, inr, arith, Bool-cases, Result-cases, subst, first_where, update_where,
}
use lexicode.Prelude.Lists.{first_where-some}
use lexicode.Domain.Words.{Key, blank, Time, archive_of_ticket}
use lexicode.Domain.Rows.{Agent, Run, Ticket}
use lexicode.Store.Db.{Db, Query, one_row, ticket_by_id, agent_by_id}
use lexicode.Store.Queries.{is_null}
use lexicode.Sched.World.{SchedError}
use lexicode.Sched.Kernel.{Kernel}
use lexicode.Sched.Stop.{cancel_ticket_runs}
use lexicode.Sched.Enqueue.{
  RunRequest, load_request_rows, with_agent, with_ticket, agent_for, ticket_for, ticket_row,
  enqueue,
}
use lexicode.Tickets.Desk.{
  Desk, TicketAct, TicketNote, noted_archive, desk_db, update_ticket, on_db, audit_ticket,
  emit_ticket, append_note, active_runs_of,
}
use lexicode.Tickets.Archive.{
  stamped, stamp_tx, announce_act, restamp, archive_cancelled, archive_counted, archive_ticket,
}

-- A card that is found has been stamped.
abbrev pub Stamped : Key → Option Time → Db → Type 0
Stamped id at db = (t : Ticket) → ticket_by_id db id ≡ ok t → t.archived_at ≡ at

stamped-first :
    (before : Ticket) (at : Option Time) (ts : List Ticket) {t : Ticket}
    → first_where
        (λ (u : Ticket). u.id == before.id)
        (update_where (λ (u : Ticket). u.id == before.id) (stamped before at) ts)
      ≡ some t
    → t.archived_at ≡ at
unfolding first_where update_where
stamped-first before at [] h = absurd (cc)
stamped-first before at (u ∷ ts) {t} h = ground (arith, stamped-first before at ts {t = t})

one_row-ok : {A : Type 0} (down : Bool) (o : Option A) {a : A} → one_row down o ≡ ok a → o ≡ some a
unfolding one_row
one_row-ok true o h = absurd (cc)
one_row-ok false none h = absurd (cc)
one_row-ok false (some x) h = ground arith

found_row :
    (id : Key) (db : Db) {t : Ticket}
    → ticket_by_id db id ≡ ok t
    → first_where (λ (u : Ticket). u.id == id) db.tickets ≡ some t
unfolding ticket_by_id
found_row id db h =
    one_row-ok (db.outage (Query.ticket_row id))
      (first_where (λ (u : Ticket). u.id == id) db.tickets) h

found_id : (id : Key) (db : Db) {t : Ticket} → ticket_by_id db id ≡ ok t → t.id ≡ id
found_id id db {t} h =
    (==_iff t.id id).0
      (first_where-some (λ (u : Ticket). u.id == id) db.tickets t (found_row id db h))

update_ticket-Stamped :
    (before : Ticket) (at : Option Time) (db : Db) {db' : Db}
    → update_ticket before.id (stamped before at) db ≡ ok db'
    → Stamped before.id at db'
unfolding update_ticket
update_ticket-Stamped before at db {db'} h t found =
    let same : update_where (λ (u : Ticket). u.id == before.id) (stamped before at) db.tickets
        ≡ db'.tickets =
      ground (arith, h) in
    stamped-first before at db.tickets {t = t}
      (ap (first_where (λ (u : Ticket). u.id == before.id)) same ∙ found_row before.id db' found)

-- The note, the audit entry and the event leave the cards as they are.
append_note-kernel :
    (note : TicketNote) (d : Desk) {d' : Desk} → append_note note d ≡ ok d' → d'.kernel ≡ d.kernel
unfolding append_note
append_note-kernel note d {d'} h = ground (arith, h)

announce_act-kernel :
    (act : TicketAct) (id : Key) (d : Desk) → (announce_act act id d).0.kernel ≡ d.kernel
unfolding announce_act audit_ticket emit_ticket
announce_act-kernel act id d = ground arith

restamp-Stamped :
    (before : Ticket) (at : Option Time) (note : TicketNote) (act : TicketAct) (d : Desk)
    → (restamp before at note act d).1 ≡ ok tt
    → Stamped before.id at (desk_db (restamp before at note act d).0)
unfolding restamp stamp_tx
restamp-Stamped before at note act d h =
    elim (Result-cases (update_ticket before.id (stamped before at) (desk_db d))) [
      | inr (e, f) ↦ absurd (cc (rw (f, restamp, stamp_tx) at h))
      | inl (db, f) ↦ elim (Result-cases (append_note note (on_db d db))) [
        | inr (e, g) ↦ absurd (cc (rw (f, g, restamp, stamp_tx) at h))
        | inl (d', g) ↦
            rw (f, restamp, stamp_tx)
              (rw g (
                rw (announce_act-kernel act before.id d', append_note-kernel note (on_db d db) g)
                  (update_ticket-Stamped before at (desk_db d) f)))
      ]
    ]

module _ (races : Key → List (Db → Db)) (now : Time) where
  archive_cancelled-Stamped :
      (before : Ticket) (active : ℕ) (d : Desk) (kr : Kernel × Result SchedError ℕ)
      → (archive_cancelled races now before active d kr).1 ≡ ok tt
      → Stamped before.id (some now) (desk_db (archive_cancelled races now before active d kr).0)
  unfolding archive_cancelled
  archive_cancelled-Stamped before active d (k, err e) g = absurd (cc g)
  archive_cancelled-Stamped before active d (k, ok n) g =
      restamp-Stamped before (some now) (noted_archive before.id active) TicketAct.archive
        (record d { kernel = k }) g

  archive_counted-Stamped :
      (id : Key) (before : Ticket) (confirmed active : ℕ) (d : Desk)
      → (archive_counted races now id before confirmed active d).1 ≡ ok tt
      → Stamped before.id
          (some now)
          (desk_db (archive_counted races now id before confirmed active d).0)
  unfolding archive_counted
  archive_counted-Stamped id before confirmed active d h = elim (Bool-cases (active == confirmed)) [
    | inr e ↦ absurd (cc (rw (e, archive_counted) at h))
    | inl e ↦
        rw (e, archive_counted)
          (archive_cancelled-Stamped before active d
            (cancel_ticket_runs races now d.kernel id archive_of_ticket)
            (rw (e, archive_counted) at h))
  ]

  archive_ticket-Stamped :
      (id : Key) (confirmed : ℕ) (d : Desk)
      → (archive_ticket races now id confirmed d).1 ≡ ok tt
      → Stamped id (some now) (desk_db (archive_ticket races now id confirmed d).0)
  unfolding archive_ticket
  archive_ticket-Stamped id confirmed d h = elim (Result-cases (ticket_by_id (desk_db d) id)) [
    | inr (e, f) ↦ absurd (cc (rw (f, archive_ticket) at h))
    | inl (before, f) ↦ elim (Bool-cases (is_null before.archived_at)) [
      | inr e ↦ absurd (cc (rw (f, e, archive_ticket) at h))
      | inl e ↦ elim (Result-cases (active_runs_of (desk_db d) id)) [
        | inr (x, g) ↦ absurd (cc (rw (f, e, g, archive_ticket) at h))
        | inl (active, g) ↦
            subst
              (λ (i : Key).
                Stamped i (some now) (desk_db (archive_ticket races now id confirmed d).0))
              (found_id id (desk_db d) f)
              (rw (f, e, g, archive_ticket)
                (archive_counted-Stamped id before confirmed active d
                  (rw (f, e, g, archive_ticket) at h)))
      ]
    ]
  ]

ticket_row-present :
    (db : Db) (req : RunRequest) (t : Ticket) {found : Option Ticket}
    → ticket_row db req t ≡ ok found
    → t.archived_at ≡ none
unfolding ticket_row
ticket_row-present db req t h = ground (arith, h)

-- A request for a run of a card finds the card, which is not archived.
ticket_for-ok :
    (db : Db) (req : RunRequest) {found : Option Ticket}
    → req.ticket_id ≢ blank
    → ticket_for db req ≡ ok found
    → (t : Ticket) × (ticket_by_id db req.ticket_id ≡ ok t) × (t.archived_at ≡ none)
unfolding ticket_for
ticket_for-ok db req {found} some_card h = elim (Bool-cases (req.ticket_id == blank)) [
  | inl e ↦ absurd (some_card ((==_iff req.ticket_id blank).0 e))
  | inr e ↦ elim (Result-cases (ticket_by_id db req.ticket_id)) [
    | inr (x, f) ↦ absurd (cc (rw (e, f, ticket_for) at h))
    | inl (t, f) ↦ (t, f, ticket_row-present db req t (rw (e, f, ticket_for) at h))
  ]
]

with_agent-ok :
    (db : Db) (req : RunRequest) (a : Result SchedError Agent) {agent : Agent}
    {found : Option Ticket}
    → with_agent db req a ≡ ok (agent, found)
    → ticket_for db req ≡ ok found
unfolding with_agent with_ticket
with_agent-ok db req (err e) h = absurd (cc h)
with_agent-ok db req (ok a) h = ground (arith, Result-cases (ticket_for db req))

load_request_rows-present :
    (db : Db) (req : RunRequest) {agent : Agent} {found : Option Ticket}
    → req.ticket_id ≢ blank
    → load_request_rows db req ≡ ok (agent, found)
    → (t : Ticket) × (ticket_by_id db req.ticket_id ≡ ok t) × (t.archived_at ≡ none)
unfolding load_request_rows
load_request_rows-present db req some_card h =
    elim (Bool-cases (req.project_id == blank || req.agent_id == blank)) [
      | inl e ↦ absurd (cc (rw (e, load_request_rows) at h))
      | inr e ↦ elim (Result-cases (agent_by_id db req.agent_id)) [
        | inr (x, f) ↦ absurd (cc (rw f at (rw (e, load_request_rows) at h)))
        | inl (a, f) ↦
            ticket_for-ok db req some_card
              (with_agent-ok db req (agent_for req a) (rw f at (rw (e, load_request_rows) at h)))
      ]
    ]

module _ (races races' : Key → List (Db → Db)) (now later : Time) (run_id entry : Key)
    (subject_key : Option Ticket → Key)
    (assemble : RunRequest → Agent → Option Ticket → Result SchedError (List Key)) where
  -- In the state that a successful archiving of a ticket leaves, whose id is not blank, a request for a run
  -- of the ticket does not succeed, whatever else it asks for.
  pub archive_ticket-enqueue :
      (id : Key) (confirmed : ℕ) (d : Desk) (req : RunRequest) {run : Run}
      → (archive_ticket races now id confirmed d).1 ≡ ok tt
      → id ≢ blank
      → req.ticket_id ≡ id
      → (enqueue races' later run_id entry subject_key assemble
          (archive_ticket races now id confirmed d).0.kernel
          req).1
        ≢ ok run
  unfolding enqueue
  archive_ticket-enqueue id confirmed d req {run} done some_card same h =
      let d' = (archive_ticket races now id confirmed d).0 in
      elim (Result-cases (load_request_rows (desk_db d') req)) [
        | inr (x, e) ↦ cc (rw (e, enqueue) at h)
        | inl ((agent, found), e) ↦
            let (t, row, present) =
              load_request_rows-present (desk_db d') req (λ none. some_card (sym same ∙ none)) e in
            let stamp =
              archive_ticket-Stamped races now id confirmed d done t
                (ap (ticket_by_id (desk_db d')) (sym same) ∙ row) in
            cc (stamp, present)
      ]
