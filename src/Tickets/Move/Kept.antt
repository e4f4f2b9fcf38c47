-- ===== src/Tickets/Move/Kept.antt =====
-- What the transaction of a move leaves as it was.
use lexicode.Prelude.{
  List, [], ◌∷◌, none, Result, ok, ◌≡◌, refl, arith, Result-cases, Option-cases, inl, inr, ap, sym,
  ◌∙◌,
}
use lexicode.Domain.Words.{Key}
use lexicode.Domain.Rows.{Ticket, Column}
use lexicode.Store.Db.{Db, ticket_by_id, column_by_id}
use lexicode.Sched.Kernel.{Kernel, db_of}
use lexicode.Tickets.Position.{Floats, Write, MoveInput, Placement, place_ticket}
use lexicode.Tickets.Desk.{
  Desk, TicketError, desk_db, update_ticket, set_positions, on_db, append_note,
}
use lexicode.Tickets.Move.{
  MoveResult, to_column, others_in, moved_to, note_move, write_move, place_move, move_tx,
}

update_ticket-runs :
    (id : Key) (f : Ticket → Ticket) (db : Db) {db' : Db}
    → update_ticket id f db ≡ ok db'
    → db'.runs ≡ db.runs
unfolding update_ticket
update_ticket-runs id f db {db'} h = ground (arith, h)

set_positions-runs :
    (ws : List Write) (db : Db) {db' : Db} → set_positions ws db ≡ ok db' → db'.runs ≡ db.runs
unfolding set_positions
set_positions-runs [] db {db'} h = ground (arith, h)
set_positions-runs (w ∷ ws) db {db'} h =
    elim (Result-cases (update_ticket w.id (λ t. record t { position = w.position }) db)) [
      | inr (e, f) ↦ absurd (cc (rw (f, set_positions) at h))
      | inl (x, f) ↦
          set_positions-runs ws x (rw (f, set_positions) at h) ∙ update_ticket-runs w.id _ db f
    ]

note_move-kernel :
    (tk : Ticket) (from_col to_col : Column) (d : Desk) {d' : Desk}
    → note_move tk from_col to_col d ≡ ok d'
    → d'.kernel ≡ d.kernel
unfolding note_move append_note
note_move-kernel tk from_col to_col d {d'} h = ground (arith, h)

abbrev moved_result : Ticket → (from_col to_col : Column) → Placement → MoveResult
moved_result tk from_col to_col pl = record {
  after = moved_to to_col.id pl.position tk;
  from_col = from_col;
  to_col = to_col;
}

ok_pair :
    (x : Desk) (r : MoveResult) {y : Desk} {s : MoveResult}
    {e : Result TicketError (Desk × MoveResult)}
    → e ≡ ok (x, r)
    → e ≡ ok (y, s)
    → (x ≡ y) × (r ≡ s)
ok_pair x r g h = ground (arith, sym g ∙ h)

-- What a transaction does to the runs, and what it answers.
pub record Kept (tk : Ticket) (from_col to_col : Column) (d d' : Desk) (res : MoveResult)
    : Type 0 where
  pub runs : (desk_db d').runs ≡ (desk_db d).runs
  pub is_from : res.from_col ≡ from_col
  pub is_to : res.to_col ≡ to_col
  pub delegate : res.after.delegate_agent_id ≡ tk.delegate_agent_id

module _ (f : Floats) where
  write_move-Kept :
      (tk : Ticket) (from_col to_col : Column) (pl : Placement) (d : Desk) {d' : Desk}
      {res : MoveResult}
      → write_move f tk from_col to_col pl d ≡ ok (d', res)
      → Kept tk from_col to_col d d' res
  unfolding write_move
  write_move-Kept tk from_col to_col pl d {d'} {res} h =
      elim (Result-cases (set_positions pl.writes (desk_db d))) [
        | inr (e, g) ↦ absurd (cc (rw (g, write_move) at h))
        | inl (db, g) ↦
            elim (Result-cases (update_ticket tk.id (moved_to to_col.id pl.position) db)) [
              | inr (e, k) ↦ absurd (cc (rw (g, k, write_move) at h))
              | inl (db', k) ↦ elim (Result-cases (note_move tk from_col to_col (on_db d db'))) [
                | inr (e, l) ↦ absurd (cc (rw (g, k, l, write_move) at h))
                | inl (x, l) ↦
                    let answer =
                      ok_pair x (moved_result tk from_col to_col pl) refl
                        (rw (g, k, l, write_move) at h) in
                    record {
                      runs =
                          ap (λ (y : Desk). (desk_db y).runs) (sym answer.0)
                          ∙ (ap (λ (y : Kernel). (db_of y).runs)
                                (note_move-kernel tk from_col to_col (on_db d db') l)
                              ∙ (update_ticket-runs tk.id (moved_to to_col.id pl.position) db k
                                  ∙ set_positions-runs pl.writes (desk_db d) g));
                      is_from = ap (λ (y : MoveResult). y.from_col) (sym answer.1);
                      is_to = ap (λ (y : MoveResult). y.to_col) (sym answer.1);
                      delegate = ap (λ (y : MoveResult). y.after.delegate_agent_id) (sym answer.1);
                    }
              ]
            ]
      ]

  place_move-Kept :
      (tk : Ticket) (from_col to_col : Column) (move : MoveInput) (d : Desk) {d' : Desk}
      {res : MoveResult}
      → place_move f tk from_col to_col move d ≡ ok (d', res)
      → Kept tk from_col to_col d d' res
  unfolding place_move
  place_move-Kept tk from_col to_col move d h =
      elim (Result-cases (others_in (desk_db d) tk to_col.id move)) [
        | inr (e, g) ↦ absurd (cc (rw (g, place_move) at h))
        | inl (rest, g) ↦ elim (Result-cases (place_ticket f tk rest move)) [
          | inr (e, k) ↦ absurd (cc (rw (g, k, place_move) at h))
          | inl (pl, k) ↦ write_move-Kept tk from_col to_col pl d (rw (g, k, place_move) at h)
        ]
      ]

  -- What a transaction has read, and does.
  pub move_tx-Kept :
      (id : Key) (move : MoveInput) (d : Desk) {d' : Desk} {res : MoveResult}
      → move_tx f id move d ≡ ok (d', res)
      → (tk : Ticket) × (from_col : Column) × (to_col : Column) × (ticket_by_id (desk_db d) id
          ≡ ok tk)
        × (tk.archived_at ≡ none)
        × (column_by_id (desk_db d) tk.column_id ≡ ok from_col)
        × (to_column (desk_db d) tk move.column_id ≡ ok to_col)
        × Kept tk from_col to_col d d' res
  unfolding move_tx
  move_tx-Kept id move d h = elim (Result-cases (ticket_by_id (desk_db d) id)) [
    | inr (e, g) ↦ absurd (cc (rw (g, move_tx) at h))
    | inl (tk, g) ↦ elim (Option-cases tk.archived_at) [
      | inr (at, k) ↦ absurd (cc (rw (g, k, move_tx) at h))
      | inl k ↦ elim (Result-cases (to_column (desk_db d) tk move.column_id)) [
        | inr (e, l) ↦ absurd (cc (rw (g, k, l, move_tx) at h))
        | inl (to_col, l) ↦ elim (Result-cases (column_by_id (desk_db d) tk.column_id)) [
          | inr (e, m) ↦ absurd (cc (rw (g, k, l, m, move_tx) at h))
          | inl (from_col, m) ↦ (
            tk,
            from_col,
            to_col,
            g,
            k,
            m,
            l,
            place_move-Kept tk from_col to_col move d (rw (g, k, l, m, move_tx) at h),
          )
        ]
      ]
    ]
  ]
