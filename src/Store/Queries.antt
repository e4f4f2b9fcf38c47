-- ===== src/Store/Queries.antt =====
-- internal/kernel/store: the searches of the runs, columns, tickets and events that admission and the
-- loop guard make. ORDER BY queued_at, seq keeps the rows' order by those columns.
pub mod Laws
use lexicode.Prelude.{
  ℕ, Bool, true, false, not, ◌&&◌, ◌||◌, List, [], ◌∷◌, Option, none, some, Result, ok, err, ◌==◌,
  ltb, leb, if◌then◌else◌, same_opt, holds, any, select, count_where, map,
}
use lexicode.Domain.RunState.{
  RunState, loop_stopped, same_state, is_terminal, holds_slot, is_running,
}
use lexicode.Domain.Words.{Key, Time}
use lexicode.Domain.Payload.{Text, Json, walk, same_text, codes}
use lexicode.Domain.Rows.{Run, Event, Ticket, Column, is_human}
use lexicode.Store.Db.{Db, Query, StoreError, io, one_row}

-- A run comes before another in `ORDER BY queued_at, seq`.
unfoldable pub before : Run → Run → Bool
before r s = ltb r.queued_at s.queued_at || (r.queued_at == s.queued_at && ltb r.seq s.seq)

unfoldable pub insert_run : Run → List Run → List Run
unfolding before
insert_run r [] = r ∷ []
insert_run r (s ∷ rs) = if before s r then s ∷ insert_run r rs else r ∷ s ∷ rs

unfoldable pub in_queue_order : List Run → List Run
unfolding insert_run
in_queue_order [] = []
in_queue_order (r ∷ rs) = insert_run r (in_queue_order rs)

-- `ByStates` at one state.
unfoldable pub by_state : Db → RunState → Result StoreError (List Run)
unfolding in_queue_order select
by_state db s =
    if db.outage Query.runs_by_states
    then err io
    else ok (in_queue_order (select (λ r. same_state r.state s) db.runs))

-- `ActiveCountByAgent`, as a function of the agent: an agent with no row in the map counts 0.
unfoldable pub active_count_by_agent : Db → Result StoreError (Key → ℕ)
unfolding count_where
active_count_by_agent db =
    if db.outage Query.active_by_agent
    then err io
    else ok (λ a. count_where (λ (r : Run). holds_slot r.state && r.agent_id == a) db.runs)

unfoldable pub active_count : Db → Result StoreError ℕ
unfolding count_where
active_count db =
    if db.outage Query.active_count
    then err io
    else ok (count_where (λ (r : Run). holds_slot r.state) db.runs)

-- `Columns.ByCategory` at the running category; the table is kept in position order.
unfoldable pub running_columns : Db → Key → Result StoreError (List Column)
unfolding select
running_columns db project =
    if db.outage Query.columns_by_category
    then err io
    else ok (select (λ (c : Column). c.project_id == project && is_running c.category) db.columns)

abbrev pub is_null {ℓ} : {A : Type ℓ} → Option A → Bool
is_null none = true
is_null (some a) = false

-- `len(Tickets.ForColumn)`
unfoldable pub tickets_in_column : Db → Key → Result StoreError ℕ
unfolding count_where
tickets_in_column db column =
    if db.outage Query.tickets_for_column
    then err io
    else ok
        (count_where (λ (t : Ticket). t.column_id == column && is_null t.archived_at) db.tickets)

-- The newer of two runs in `ORDER BY queued_at DESC, seq DESC`.
unfoldable pub newest : List Run → Option Run
unfolding before
newest [] = none
newest (r ∷ rs) = elim (newest rs) [
  | none ↦ some r
  | some s ↦ if before r s then some s else some r
]

unfoldable pub latest_on_subject :
    Db → (trigger subject : Key) (cutoff : Time) → Result StoreError Run
unfolding newest select one_row
latest_on_subject db trigger subject cutoff =
    one_row (db.outage (Query.latest_on_subject trigger)) (
      newest (
        select
          (λ r.
            holds r.trigger_id trigger
            && r.subject_key == subject
            && leb cutoff r.queued_at
            && not (same_state r.state loop_stopped))
          db.runs))

-- A run of the trigger on the subject that has not ended.
abbrev pub live_on : (trigger subject : Key) → Run → Bool
live_on trigger subject r =
    holds r.trigger_id trigger && r.subject_key == subject && not (is_terminal r.state)

unfoldable pub active_on_subject : Db → (trigger subject : Key) → Result StoreError Run
unfolding newest select one_row
active_on_subject db trigger subject =
    one_row (db.outage (Query.active_on_subject trigger))
      (newest (select (live_on trigger subject) db.runs))

-- json_extract(payload, path) = id
unfoldable pub extracts : Json → List Text → Text → Bool
unfolding walk same_text
extracts payload path id = elim (walk path payload) [
  | some (Json.text t) ↦ same_text t id
  | _ ↦ false
]

abbrev pub review_id_path : List Text
review_id_path = codes "review" ∷ codes "id" ∷ []

abbrev pub comment_review_path : List Text
comment_review_path = codes "comment" ∷ codes "review_id" ∷ []

unfoldable pub of_review : (project kind : Key) (number : ℕ) (review : Text) → Event → Bool
unfolding extracts
of_review project kind number review e =
    holds e.project_id project
    && e.subject_kind == kind
    && holds e.subject_number number
    && (extracts e.payload review_id_path review || extracts e.payload comment_review_path review)

unfoldable pub latest_for_review :
    Db → (trigger project kind : Key) (number : ℕ) (review : Text) → Result StoreError Run
unfolding newest select one_row of_review count_where
latest_for_review db trigger project kind number review =
    one_row (db.outage (Query.latest_for_review trigger)) (
      newest (
        select
          (λ r.
            holds r.trigger_id trigger
            && not (same_state r.state loop_stopped)
            && ltb 0 (
                count_where
                  (λ e. holds r.cause_event_id e.id && of_review project kind number review e)
                  db.events))
          db.runs))

abbrev pub later : Option Time → Time → Option Time
later none t = some t
later (some s) t = if ltb s t then some t else some s

unfoldable pub newest_at : (Event → Bool) → List Event → Option Time
newest_at p [] = none
newest_at p (e ∷ es) = let rest = newest_at p es in if p e then later rest e.occurred_at else rest

-- `NewestHumanActionAt`; the empty text is `none`.
unfoldable pub newest_human_action_at :
    Db
    → (project kind : Key) (number : Option ℕ) (subject : Option Key)
    → Result StoreError (Option Time)
unfolding newest_at
newest_human_action_at db project kind number subject =
    if db.outage Query.human_action
    then err io
    else ok (
        newest_at
          (λ e.
            holds e.project_id project
            && is_human e.actor_kind
            && e.subject_kind == kind
            && same_opt e.subject_number number
            && same_opt e.subject_id subject)
          db.events)

-- `RunMessages.DropQueued`: the messages of the run are pending no more.
unfoldable pub drop_queued : Db → Key → Db
drop_queued db run = if db.outage Query.drop_queued then db else record db {
  messages = map (λ m. if m.run_id == run then record m { pending = false } else m) db.messages;
}

-- `ActiveForTicket`: the runs of a ticket that have not ended, the oldest first.
unfoldable pub active_for_ticket : Db → (ticket : Key) → Result StoreError (List Run)
unfolding in_queue_order select
active_for_ticket db ticket =
    if db.outage (Query.active_for_ticket ticket)
    then err io
    else ok (
        in_queue_order
          (select (λ r. holds r.ticket_id ticket && not (is_terminal r.state)) db.runs))

-- `ByStates`
unfoldable pub by_states : Db → List RunState → Result StoreError (List Run)
unfolding in_queue_order select any
by_states db states =
    if db.outage Query.runs_by_states
    then err io
    else ok (in_queue_order (select (λ r. any (same_state r.state) states) db.runs))
