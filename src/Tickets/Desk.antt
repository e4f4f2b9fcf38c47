-- ===== src/Tickets/Desk.antt =====
-- What internal/service/tickets acts on, and the statements of internal/kernel/store/tickets.go that it uses.
use lexicode.Prelude.{
  ℕ, not, ◌&&◌, ◌||◌, List, [], ◌∷◌, ◌++◌, Result, ok, err, ◌==◌, ltb, if◌then◌else◌, select,
  update_where, count_where,
}
use lexicode.Domain.Words.{Key}
use lexicode.Domain.RunState.{is_terminal}
use lexicode.Domain.Rows.{Run, Ticket}
use lexicode.Store.Db.{Db, Query, StoreError, io, not_found}
use lexicode.Store.Queries.{is_null}
use lexicode.Prelude.{holds}
use lexicode.Sched.World.{SchedError}
use lexicode.Sched.Kernel.{Kernel, db_of}
use lexicode.Tickets.Position.{Write, PlaceError}

-- The rows of `ticket_stream` that the service writes.
pub data TicketNote : Type 0 where
  noted_move : (ticket from to : Key) → TicketNote
  noted_archive : (ticket : Key) (active : ℕ) → TicketNote
  noted_unarchive : (ticket : Key) → TicketNote

pub data TicketAct : Type 0 where
  move autostart archive unarchive : TicketAct

-- An audit row, or an event on the bus.
pub record Trace : Type 0 where
  pub act : TicketAct
  pub ticket : Key

pub record Desk : Type 0 where
  pub kernel : Kernel
  pub notes : List TicketNote
  pub audit : List Trace
  pub events : List Trace

pub data TicketError : Type 0 where
  is_archived is_not_archived column_required no_such_column audit_failed : TicketError
  place : PlaceError → TicketError
  active_runs : (active confirmed : ℕ) → TicketError
  stored : StoreError → TicketError
  cancel : SchedError → TicketError

abbrev pub desk_db : Desk → Db
desk_db d = db_of d.kernel

-- `ORDER BY position, id`
unfoldable pub insert_card : Ticket → List Ticket → List Ticket
insert_card t [] = t ∷ []
insert_card t (u ∷ us) =
    let rest = insert_card t us in
    if ltb t.position u.position || (t.position == u.position && ltb t.id u.id)
    then t ∷ u ∷ us
    else u ∷ rest

unfoldable pub by_position : List Ticket → List Ticket
unfolding insert_card
by_position [] = []
by_position (t ∷ ts) = insert_card t (by_position ts)

-- `ForColumn`
unfoldable pub for_column : Db → Key → Result StoreError (List Ticket)
unfolding select by_position
for_column db column =
    if db.outage Query.tickets_for_column
    then err io
    else ok (by_position (select (λ t. t.column_id == column && is_null t.archived_at) db.tickets))

-- The runs of a ticket that have not ended, of `ForTicket`.
unfoldable pub active_runs_of : Db → Key → Result StoreError ℕ
unfolding count_where
active_runs_of db ticket =
    if db.outage (Query.runs_for_ticket ticket)
    then err io
    else ok
        (count_where (λ (r : Run). holds r.ticket_id ticket && not (is_terminal r.state)) db.runs)

-- An UPDATE of one ticket, and `errIfNone`.
unfoldable pub update_ticket : Key → (Ticket → Ticket) → Db → Result StoreError Db
unfolding count_where update_where
update_ticket id f db =
    if db.outage (Query.write_ticket id)
    then err io
    else if count_where (λ (t : Ticket). t.id == id) db.tickets == 0
    then err not_found
    else ok (record db { tickets = update_where (λ t. t.id == id) f db.tickets })

-- `SetPosition` of one card after another: the first error ends it.
unfoldable pub set_positions : List Write → Db → Result StoreError Db
unfolding update_ticket
set_positions [] db = ok db
set_positions (w ∷ ws) db = elim (update_ticket w.id (λ t. record t { position = w.position }) db) [
  | err e ↦ err e
  | ok db' ↦ set_positions ws db'
]

abbrev pub on_db : Desk → Db → Desk
on_db d db = record d { kernel = record d.kernel { world = record d.kernel.world { db = db } } }

abbrev pub trace : TicketAct → Key → Trace
trace act ticket = record { act = act; ticket = ticket }

-- `audit.Write`, whose error the caller returns.
unfoldable pub audit_ticket : TicketAct → Key → Desk → Result TicketError Desk
audit_ticket act id d =
    if (desk_db d).outage Query.audit_write
    then err audit_failed
    else ok (record d { audit = d.audit ++ trace act id ∷ [] })

-- `emitTicket`: a failure is logged.
unfoldable pub emit_ticket : TicketAct → Key → Desk → Desk
emit_ticket act id d =
    if (desk_db d).outage Query.bus_emit
    then d
    else record d { events = d.events ++ trace act id ∷ [] }

-- `appendStream`
unfoldable pub append_note : TicketNote → Desk → Result TicketError Desk
append_note note d =
    if (desk_db d).outage Query.append_stream
    then err (stored io)
    else ok (record d { notes = d.notes ++ note ∷ [] })
