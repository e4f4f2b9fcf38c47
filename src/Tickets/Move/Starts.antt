-- ===== src/Tickets/Move/Starts.antt =====
-- When a move of a card may start a run.
use lexicode.Prelude.{
  true, List, Option, none, some, Result, ok, ◌==◌, ==_iff, ◌≡◌, ◌≢◌, ◌⊎◌, refl, arith, Bool-cases,
  Result-cases, Option-cases, inl, inr, ap, sym, ◌∙◌,
}
use lexicode.Domain.Words.{Key, blank, Time}
use lexicode.Domain.Rows.{Agent, Ticket, Column}
use lexicode.Store.Db.{Db, io, not_found, ticket_by_id, column_by_id}
use lexicode.Sched.World.{SchedError}
use lexicode.Sched.Enqueue.{RunRequest}
use lexicode.Tickets.Position.{Floats, MoveInput}
use lexicode.Tickets.Desk.{Desk, TicketAct, desk_db, audit_ticket, emit_ticket}
use lexicode.Tickets.Move.{
  MoveResult, to_column, move_tx, auto_starts, maybe_auto_start, after_move, move_ticket,
}
use lexicode.Tickets.Move.Kept.{move_tx-Kept}

-- A card with a delegate, which is not archived, comes from another column to one of its project that
-- starts delegates.
pub record Comes (db : Db) (id column : Key) : Type 0 where
  pub card : Ticket
  pub from_col : Column
  pub to_col : Column
  pub agent : Key
  pub is_card : ticket_by_id db id ≡ ok card
  pub is_from : column_by_id db card.column_id ≡ ok from_col
  pub is_to : column_by_id db column ≡ ok to_col
  pub present : card.archived_at ≡ none
  pub of_project : to_col.project_id ≡ card.project_id
  pub elsewhere : from_col.id ≢ to_col.id
  pub starts : to_col.auto_start_delegate ≡ true
  pub delegate : card.delegate_agent_id ≡ some agent

to_column-ok :
    (db : Db) (tk : Ticket) (column : Key) {to_col : Column}
    → to_column db tk column ≡ ok to_col
    → (column_by_id db column ≡ ok to_col) × (to_col.project_id ≡ tk.project_id)
unfolding to_column
to_column-ok db tk column {to_col} h = elim (Bool-cases (column == blank)) [
  | inl e ↦ absurd (cc (rw (e, to_column) at h))
  | inr e ↦ elim (Result-cases (column_by_id db column)) [
    | inr (io, g) ↦ absurd (cc (rw (e, g, to_column) at h))
    | inr (not_found, g) ↦ absurd (cc (rw (e, g, to_column) at h))
    | inl (col, g) ↦ elim (Bool-cases (col.project_id == tk.project_id)) [
      | inr k ↦ absurd (cc (rw (e, g, k, to_column) at h))
      | inl k ↦
          let same : col ≡ to_col = ground (arith, rw (e, g, k, to_column) at h) in
          (
            g ∙ ap (λ (c : Column). ok c) same,
            ap (λ (c : Column). c.project_id) (sym same)
                ∙ (==_iff col.project_id tk.project_id).0 k,
          )
    ]
  ]
]

auto_starts-some :
    (res : MoveResult) {agent : Key}
    → auto_starts res ≡ some agent
    → (res.from_col.id ≢ res.to_col.id)
      × (res.to_col.auto_start_delegate ≡ true)
      × (res.after.delegate_agent_id ≡ some agent)
auto_starts-some res h = ground arith

module _ (f : Floats) (races : Key → List (Db → Db)) (now : Time) (run_id entry : Key)
    (subject_key : Option Ticket → Key)
    (assemble : RunRequest → Agent → Option Ticket → Result SchedError (List Key)) where
  -- Without a delegate to start, what follows a transaction leaves the runs.
  after_move-runs :
      (d : Desk) (res : MoveResult)
      → auto_starts res ≡ none
      → (desk_db (after_move f races now run_id entry subject_key assemble (d, res)).0).runs
        ≡ (desk_db d).runs
  unfolding after_move maybe_auto_start audit_ticket emit_ticket
  after_move-runs d res none_starts =
      elim (Result-cases (audit_ticket TicketAct.move res.after.id d)) [
        | inr (e, g) ↦ rw (g, after_move) refl
        | inl (d', g) ↦ rw (g, none_starts, after_move, maybe_auto_start) (ground arith)
      ]

  -- A move of a card leaves the runs as they are, except that of a card with a delegate that comes to a
  -- column which starts delegates, of the project of the card and other than the column that the card was
  -- in; and the card is not archived.
  pub move_ticket-Comes :
      (id : Key) (move : MoveInput) (d : Desk)
      → ((desk_db (move_ticket f races now run_id entry subject_key assemble id move d).0).runs
          ≡ (desk_db d).runs)
        ⊎ Comes (desk_db d) id move.column_id
  unfolding move_ticket
  move_ticket-Comes id move d = elim (Result-cases (move_tx f id move d)) [
    | inr (e, g) ↦ inl (rw (g, move_ticket) refl)
    | inl ((d', res), g) ↦
        let (tk, from_col, to_col, is_card, present, is_from, is_to, kept) =
          move_tx-Kept f id move d g in
        elim (Option-cases (auto_starts res)) [
          | inl none_starts ↦
              inl (rw (g, move_ticket) (after_move-runs d' res none_starts ∙ kept.runs))
          | inr (agent, k) ↦
              let (elsewhere, starts, delegate) = auto_starts-some res k in
              let (is_to_col, of_project) = to_column-ok (desk_db d) tk move.column_id is_to in
              inr (record {
                card = tk;
                from_col = from_col;
                to_col = to_col;
                agent = agent;
                is_card = is_card;
                is_from = is_from;
                is_to = is_to_col;
                present = present;
                of_project = of_project;
                elsewhere = λ same. elsewhere (
                    ap (λ (c : Column). c.id) kept.is_from
                    ∙ (same ∙ sym (ap (λ (c : Column). c.id) kept.is_to)));
                starts = ap (λ (c : Column). c.auto_start_delegate) (sym kept.is_to) ∙ starts;
                delegate = sym kept.delegate ∙ delegate;
              })
        ]
  ]
