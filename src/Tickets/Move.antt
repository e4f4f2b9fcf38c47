-- ===== src/Tickets/Move.antt =====
-- internal/service/tickets/move.go: `Move`, with the run that it may start. The card that the caller gets is
-- the one that was moved; that it is read again with its meta data is left out.
pub mod Kept
pub mod Starts
use lexicode.Prelude.{
  ℕ, not, ◌||◌, List, [], ◌∷◌, ◌++◌, Option, none, some, Result, ok, err, ◌==◌, if◌then◌else◌,
  select,
}
use lexicode.Domain.Words.{Key, blank, Time, column_auto_start}
use lexicode.Domain.Rows.{Agent, Ticket, Column}
use lexicode.Store.Db.{Db, Query, StoreError, io, not_found, ticket_by_id, column_by_id}
use lexicode.Store.Queries.{is_null}
use lexicode.Sched.World.{SchedError}
use lexicode.Sched.Enqueue.{RunRequest, enqueue}
use lexicode.Tickets.Position.{Floats, MoveInput, Placement, place_ticket}
use lexicode.Tickets.Desk.{
  Desk, TicketError, is_archived, column_required, no_such_column, place, stored, TicketAct,
  noted_move, desk_db, for_column, update_ticket, set_positions, on_db, trace, audit_ticket,
  emit_ticket, append_note,
}

-- `moveResult`
pub record MoveResult : Type 0 where
  pub after : Ticket
  pub from_col : Column
  pub to_col : Column

-- The destination, which must be of the project of the ticket.
unfoldable pub to_column : Db → Ticket → (column : Key) → Result TicketError Column
unfolding column_by_id
to_column db tk column =
    if column == blank then err column_required else elim (column_by_id db column) [
      | err not_found ↦ err no_such_column
      | err io ↦ err (stored io)
      | ok col ↦ if col.project_id == tk.project_id then ok col else err no_such_column
    ]

-- The other cards of the destination, which an explicit position does not need.
unfoldable pub others_in :
    Db → Ticket → (column : Key) → MoveInput → Result StoreError (List Ticket)
unfolding for_column select
others_in db tk column move = elim move.position [
  | some p ↦ ok []
  | none ↦ elim (for_column db column) [
    | err e ↦ err e
    | ok all ↦ ok (select (λ t. not (t.id == tk.id)) all)
  ]
]

abbrev pub moved_to : (column : Key) (position : ℕ) → Ticket → Ticket
moved_to column position t = record t { column_id = column; position = position }

-- `if fromCol.ID != toCol.ID`: a change of the column is told in the stream of the ticket.
unfoldable pub note_move : Ticket → (from_col to_col : Column) → Desk → Result TicketError Desk
unfolding append_note
note_move tk from_col to_col d =
    if from_col.id == to_col.id
    then ok d
    else append_note (noted_move tk.id from_col.id to_col.id) d

module _ (f : Floats) where
  -- The writes of the transaction, for a placement.
  unfoldable pub write_move :
      Ticket
      → (from_col to_col : Column) → Placement
      → Desk
      → Result TicketError (Desk × MoveResult)
  unfolding set_positions update_ticket note_move
  write_move tk from_col to_col pl d = elim (set_positions pl.writes (desk_db d)) [
    | err e ↦ err (stored e)
    | ok db ↦ elim (update_ticket tk.id (moved_to to_col.id pl.position) db) [
      | err e ↦ err (stored e)
      | ok db' ↦ elim (note_move tk from_col to_col (on_db d db')) [
        | err e ↦ err e
        | ok d' ↦ ok (
          d',
          record {
            after = moved_to to_col.id pl.position tk;
            from_col = from_col;
            to_col = to_col;
          },
        )
      ]
    ]
  ]

  unfoldable pub place_move :
      Ticket
      → (from_col to_col : Column) → MoveInput
      → Desk
      → Result TicketError (Desk × MoveResult)
  unfolding others_in place_ticket write_move
  place_move tk from_col to_col move d = elim (others_in (desk_db d) tk to_col.id move) [
    | err e ↦ err (stored e)
    | ok rest ↦ elim (place_ticket f tk rest move) [
      | err e ↦ err (place e)
      | ok pl ↦ write_move tk from_col to_col pl d
    ]
  ]

  -- The transaction of `Move`: all of it, or an error and nothing.
  unfoldable pub move_tx : Key → MoveInput → Desk → Result TicketError (Desk × MoveResult)
  unfolding ticket_by_id column_by_id to_column place_move
  move_tx id move d = elim (ticket_by_id (desk_db d) id) [
    | err e ↦ err (stored e)
    | ok tk ↦
        if not (is_null tk.archived_at)
        then err is_archived
        else elim (to_column (desk_db d) tk move.column_id) [
          | err e ↦ err e
          | ok to_col ↦ elim (column_by_id (desk_db d) tk.column_id) [
            | err e ↦ err (stored e)
            | ok from_col ↦ place_move tk from_col to_col move d
          ]
        ]
  ]

-- Whether a move asks for a run, and of which agent.
abbrev pub auto_starts : MoveResult → Option Key
auto_starts res =
    if res.from_col.id == res.to_col.id || not res.to_col.auto_start_delegate
    then none
    else res.after.delegate_agent_id

module _ (f : Floats) (races : Key → List (Db → Db)) (now : Time) (run_id entry : Key)
    (subject_key : Option Ticket → Key)
    (assemble : RunRequest → Agent → Option Ticket → Result SchedError (List Key)) where
  abbrev pub request_of : Ticket → (agent : Key) → RunRequest
  request_of tk agent = record {
    project_id = tk.project_id;
    agent_id = agent;
    ticket_id = tk.id;
    reason = column_auto_start;
    requested_by_user_id = blank;
    trigger_id = blank;
    cause_event_id = blank;
    parent_run_id = blank;
    subject_key = blank;
    depth = 0;
    superseded_run_id = blank;
  }

  -- The audit row of an automatic start; a failure is logged.
  unfoldable pub audit_start : Key → Desk → Desk
  audit_start id d =
      if (desk_db d).outage Query.audit_write
      then d
      else record d { audit = d.audit ++ trace TicketAct.autostart id ∷ [] }

  -- `maybeAutoStart`, through `RequestRun`, which is `Enqueue`.
  unfoldable pub maybe_auto_start : MoveResult → Desk → Desk
  unfolding enqueue audit_start
  maybe_auto_start res d = elim (auto_starts res) [
    | none ↦ d
    | some agent ↦ audit_start res.after.id (record d {
      kernel =
          (enqueue races now run_id entry subject_key assemble d.kernel
            (request_of res.after agent)).0;
    })
  ]

  -- What follows the transaction.
  unfoldable pub after_move : Desk × MoveResult → Desk × Result TicketError Ticket
  unfolding audit_ticket emit_ticket maybe_auto_start
  after_move (d, res) = elim (audit_ticket TicketAct.move res.after.id d) [
    | err e ↦ (d, err e)
    | ok d' ↦ (maybe_auto_start res (emit_ticket TicketAct.move res.after.id d'), ok res.after)
  ]

  -- `Move`
  unfoldable pub move_ticket : Key → MoveInput → Desk → Desk × Result TicketError Ticket
  unfolding move_tx after_move
  move_ticket id move d = elim (move_tx f id move d) [
    | err e ↦ (d, err e)
    | ok moved ↦ after_move moved
  ]
