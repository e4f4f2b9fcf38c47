-- ===== src/Tests/Tickets.antt =====
-- The theorems on the positions of cards at a column of three.
use lexicode.Prelude.{
  ◌+◌, ◌*◌, ◌≡◌, refl, List, [], ◌∷◌, ◌++◌, none, ok, arith, false, Option, Result, ◌⊎◌, ◌≢◌,
  count_where, update_where, select, first_where,
}
use lexicode.Domain.Words.{Key, column_auto_start}
use lexicode.Domain.Rows.{Agent, Ticket}
use lexicode.Store.Db.{Db, one_row, ticket_by_id}
use lexicode.Sched.World.{SchedError}
use lexicode.Store.Queries.{active_for_ticket}
use lexicode.Sched.Stop.{stop_all, cancel_ticket_runs}
use lexicode.Sched.Enqueue.{RunRequest, queued_row, enqueue}
use lexicode.Tickets.Desk.{
  Desk, desk_db, active_runs_of, update_ticket, append_note, audit_ticket, emit_ticket,
}
use lexicode.Tickets.Move.{move_ticket}
use lexicode.Tickets.Move.Starts.{Comes, move_ticket-Comes}
use lexicode.Tickets.Archive.{
  archive_ticket, archive_counted, archive_cancelled, restamp, stamp_tx, announce_act,
}
use lexicode.Tickets.Archive.Refuses.{archive_ticket-enqueue}
use lexicode.Tickets.Position.{
  absent, Floats, value, MoveInput, split_after, gap_of, last_of, position_between, renumber,
  place_in, place_ticket,
}
use lexicode.Tickets.Position.Numbered.{position_after, Between}
use lexicode.Tickets.Position.Placed.{InSlot, place_ticket-Between}
use lexicode.Tests.Sample.{a_ticket, agent_7, two_runs, in_world}

-- Positions without fractions: there is no room between two neighbours.
abbrev whole : Floats
whole = record {
  gap = 1000;
  add_gap = λ p. p + 1000;
  half = λ p. p;
  midpoint = λ p q. p;
  slot = λ n. n * 1000;
}

abbrev cards : List Ticket
cards = a_ticket 31 ∷ a_ticket 32 ∷ []

abbrev below_31 : MoveInput
below_31 = record { column_id = 40; position = none; after_id = value 31 }

places :
    place_ticket whole (a_ticket 30) cards below_31
    ≡ ok (record {
      position = 2000;
      writes = record { id = 31; position = 1000 } ∷ record { id = 32; position = 3000 } ∷ [];
    })
unfolding place_ticket gap_of split_after place_in last_of position_between renumber
places = refl

place_ticket-Between_example :
    (front : List Ticket) × (back : List Ticket) × InSlot (value 31) front back
    × (front ++ back ≡ cards)
    × Between
        (position_after
          (record { id = 31; position = 1000 } ∷ record { id = 32; position = 3000 } ∷ []))
        2000
        front
        back
place_ticket-Between_example =
    place_ticket-Between whole (λ n. omega arith) (a_ticket 30) cards below_31
      (omega arith, (omega arith, tt)) ((omega arith, tt), (tt, tt)) ((omega arith, tt), (tt, tt))
      (omega arith, (omega arith, tt)) refl places

abbrev alone : Key → List (Db → Db)
alone id = []

abbrev desk : Desk
desk = record {
  kernel = record {
    world = in_world two_runs;
    supervisors = [];
    stopping = false;
    elicitations = [];
    items = [];
    stream = [];
    outputs = [];
    firings = [];
    revoked = [];
    woken = false;
  };
  notes = [];
  audit = [];
  events = [];
}

abbrev subject : Option Ticket → Key
subject t = 900

abbrev context : RunRequest → Agent → Option Ticket → Result SchedError (List Key)
context req agent t = ok (501 ∷ [])

abbrev to_50 : MoveInput
to_50 = record { column_id = 50; position = none; after_id = absent }

move_ticket-Comes_example :
    ((desk_db (move_ticket whole alone 3000 77 88 subject context 32 to_50 desk).0).runs
      ≡ two_runs.runs)
    ⊎ Comes two_runs 32 50
move_ticket-Comes_example = move_ticket-Comes whole alone 3000 77 88 subject context 32 to_50 desk

-- Ticket 32 has no active run.
archives : (archive_ticket alone 3000 32 0 desk).1 ≡ ok tt
unfolding archive_ticket ticket_by_id active_runs_of archive_counted cancel_ticket_runs
    active_for_ticket stop_all archive_cancelled restamp stamp_tx update_ticket append_note
    announce_act audit_ticket emit_ticket count_where update_where select first_where one_row
archives = refl

abbrev request : RunRequest
request = record {
  project_id = 1;
  agent_id = 7;
  ticket_id = 32;
  reason = column_auto_start;
  requested_by_user_id = 0;
  trigger_id = 0;
  cause_event_id = 0;
  parent_run_id = 0;
  subject_key = 0;
  depth = 0;
  superseded_run_id = 0;
}

archive_ticket-enqueue_example :
    (enqueue alone 4000 77 88 subject context
      (archive_ticket alone 3000 32 0 desk).0.kernel
      request).1
    ≢ ok (queued_row 77 4000 3 900 request agent_7)
archive_ticket-enqueue_example =
    archive_ticket-enqueue alone alone 3000 4000 77 88 subject context 32 0 desk request archives
      (omega arith) refl
