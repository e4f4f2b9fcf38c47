-- ===== src/Tickets/Archive.antt =====
-- internal/service/tickets/move.go: `Archive` and `Unarchive`. That the card is read again with its meta data
-- is left out.
pub mod Refuses
use lexicode.Prelude.{ℕ, Bool, not, List, Option, none, some, Result, ok, err, ◌==◌, if◌then◌else◌}
use lexicode.Domain.Words.{Key, Time, archive_of_ticket}
use lexicode.Domain.Rows.{Ticket}
use lexicode.Store.Db.{Db, ticket_by_id}
use lexicode.Store.Queries.{is_null}
use lexicode.Sched.World.{SchedError}
use lexicode.Sched.Kernel.{Kernel}
use lexicode.Sched.Stop.{cancel_ticket_runs}
use lexicode.Tickets.Desk.{
  Desk, TicketError, TicketAct, TicketNote, noted_archive, noted_unarchive, is_archived,
  is_not_archived, active_runs, stored, cancel, desk_db, active_runs_of, update_ticket, on_db,
  audit_ticket, emit_ticket, append_note,
}

-- `Update` with the columns of a row that was read before, but for the stamp.
abbrev pub stamped : Ticket → Option Time → Ticket → Ticket
stamped before at t = record t {
  column_id = before.column_id;
  position = before.position;
  delegate_agent_id = before.delegate_agent_id;
  archived_at = at;
}

-- The transaction of both: the stamp and the note.
unfoldable pub stamp_tx : Ticket → Option Time → TicketNote → Desk → Result TicketError Desk
unfolding update_ticket append_note
stamp_tx before at note d = elim (update_ticket before.id (stamped before at) (desk_db d)) [
  | err e ↦ err (stored e)
  | ok db ↦ append_note note (on_db d db)
]

-- The audit entry, whose failure is returned, and the event.
unfoldable pub announce_act : TicketAct → Key → Desk → Desk × Result TicketError (Unit {0})
unfolding audit_ticket emit_ticket
announce_act act id d = elim (audit_ticket act id d) [
  | err e ↦ (d, err e)
  | ok d' ↦ (emit_ticket act id d', ok tt)
]

-- The transaction, and what follows it.
unfoldable pub restamp :
    Ticket → Option Time → TicketNote → TicketAct → Desk → Desk × Result TicketError (Unit {0})
unfolding stamp_tx announce_act
restamp before at note act d = elim (stamp_tx before at note d) [
  | err e ↦ (d, err e)
  | ok d' ↦ announce_act act before.id d'
]

-- `Unarchive`
unfoldable pub unarchive_ticket : Key → Desk → Desk × Result TicketError (Unit {0})
unfolding restamp
unarchive_ticket id d = elim (ticket_by_id (desk_db d) id) [
  | err e ↦ (d, err (stored e))
  | ok before ↦
      if is_null before.archived_at
      then (d, err is_not_archived)
      else restamp before none (noted_unarchive before.id) TicketAct.unarchive d
]

module _ (races : Key → List (Db → Db)) (now : Time) where
  -- `Archive` from the point where the runs have been stopped.
  unfoldable pub archive_cancelled :
      Ticket
      → (active : ℕ) → Desk
      → Kernel × Result SchedError ℕ
      → Desk × Result TicketError (Unit {0})
  unfolding restamp
  archive_cancelled before active d (k, err e) = (record d { kernel = k }, err (cancel e))
  archive_cancelled before active d (k, ok n) =
      restamp before (some now) (noted_archive before.id active) TicketAct.archive
        (record d { kernel = k })

  -- `Archive` from the point where the active runs have been counted.
  unfoldable pub archive_counted :
      Key → Ticket → (confirmed active : ℕ) → Desk → Desk × Result TicketError (Unit {0})
  unfolding cancel_ticket_runs archive_cancelled
  archive_counted id before confirmed active d =
      if not (active == confirmed)
      then (d, err (active_runs active confirmed))
      else archive_cancelled before active d
          (cancel_ticket_runs races now d.kernel id archive_of_ticket)

  -- `Archive`
  unfoldable pub archive_ticket :
      Key → (confirmed : ℕ) → Desk → Desk × Result TicketError (Unit {0})
  unfolding active_runs_of archive_counted
  archive_ticket id confirmed d = elim (ticket_by_id (desk_db d) id) [
    | err e ↦ (d, err (stored e))
    | ok before ↦
        if not (is_null before.archived_at)
        then (d, err is_archived)
        else elim (active_runs_of (desk_db d) id) [
          | err e ↦ (d, err (stored e))
          | ok active ↦ archive_counted id before confirmed active d
        ]
  ]
