-- ===== src/Sched/Board/Writes.antt =====
-- The statements of internal/kernel/sched on the board: a transition moves runs, the other UPDATEs leave
-- the board alone, and a new row is a birth.
use lexicode.Prelude.{
  ◌≡◌, refl, sym, subst, Bool, Bool-cases, inl, inr, List, [], ◌∷◌, ◌++◌, All, ok, update_where,
  arith,
}
use lexicode.Domain.RunState.{RunState}
use lexicode.Domain.Words.{Key, Time, Words, Words-discrete}
use lexicode.Domain.Rows.{Run}
use lexicode.Store.Db.{Db, Query}
use lexicode.Store.Runs.{
  RunStateUpdate, write, write_found, set_hold_reason, set_provisioned, set_takeover_note,
}
use lexicode.Store.Queries.{drop_queued}
use lexicode.Sched.World.{World, published}
use lexicode.Sched.States.{transition}
use lexicode.Sched.States.Advance.{Evolves, transition-Evolves}
use lexicode.Sched.Admission.{hold_anew, hold_if, hold}
use lexicode.Sched.Create.{create_run}
use lexicode.Sched.Board.{Board, entry, board, IsBirth, ◌⇒*◌}
use lexicode.Sched.Board.Rows.{⇒*-trans, Rowwise-⇒*, append-⇒*}

-- The database shows a board that can be reached from `b`.
pub record Grows (b : Board) (db : Db) : Type 0 where
  pub path : b ⇒* board db.runs

pub Grows-same : (b : Board) (d e : Db) → board e.runs ≡ board d.runs → Grows b d → Grows b e
Grows-same b d e same g = record { path = subst (λ c. b ⇒* c) (sym same) g.path }

pub Grows-Evolves : (b : Board) (d e : Db) → Evolves d e → Grows b d → Grows b e
Grows-Evolves b d e h g = record { path = ⇒*-trans g.path (Rowwise-⇒* d.runs e.runs h) }

-- What other writers do during the transitions are legal transitions themselves.
abbrev pub Legal : (Key → List (Db → Db)) → Type 0
Legal races = (id : Key) → All (λ (race : Db → Db). (d : Db) → Evolves d (race d)) (races id)

pub transition-Grows :
    (races : Key → List (Db → Db)) (legal : Legal races) (now : Time) (b : Board) (w : World)
    (id : Key) (to : RunState) (u : RunStateUpdate)
    → Grows b w.db
    → Grows b (transition (races id) now w id to u).0.db
transition-Grows races legal now b w id to u g =
    Grows-Evolves b w.db (transition (races id) now w id to u).0.db
      (transition-Evolves (races id) now w id to u (legal id)) g

update_where-board :
    (q : Run → Bool) (f : Run → Run) (rs : List Run)
    → ((x : Run) → entry (f x) ≡ entry x)
    → board (update_where q f rs) ≡ board rs
unfolding update_where
update_where-board q f [] same = refl
update_where-board q f (r ∷ rs) same = ground (arith, same r, update_where-board q f rs same)

write-Grows :
    (b : Board) (db : Db) (s : Query) (q : Run → Bool) (f : Run → Run)
    → ((x : Run) → entry (f x) ≡ entry x)
    → Grows b db
    → Grows b (write db s q f).0
unfolding write
write-Grows b db s q f same g = elim (Bool-cases (db.outage s)) [
  | inl e ↦ rw (e, write) g
  | inr e ↦ rw (e, write) (Grows-same b db _ (update_where-board q f db.runs same) g)
]

write_found-board :
    (db : Db) (s : Query) (q : Run → Bool) (f : Run → Run)
    → ((x : Run) → entry (f x) ≡ entry x)
    → board (write_found db s q f).0.runs ≡ board db.runs
unfolding write_found
write_found-board db s q f same = ground (arith, update_where-board q f db.runs same)

pub set_provisioned-Grows :
    (b : Board) (db : Db) (id i c br s : Key)
    → Grows b db
    → Grows b (set_provisioned db id i c br s).0
unfolding set_provisioned
set_provisioned-Grows b db id i c br s =
    Grows-same b db (set_provisioned db id i c br s).0 (write_found-board db _ _ _ (λ x. refl))

pub set_takeover_note-Grows :
    (b : Board) (db : Db) (id note : Key) → Grows b db → Grows b (set_takeover_note db id note).0
unfolding set_takeover_note
set_takeover_note-Grows b db id note =
    Grows-same b db (set_takeover_note db id note).0 (write_found-board db _ _ _ (λ x. refl))

pub drop_queued-Grows : (b : Board) (db : Db) (id : Key) → Grows b db → Grows b (drop_queued db id)
drop_queued-Grows b db id = Grows-same b db (drop_queued db id) (unfold drop_queued in ground arith)

set_hold_reason-Grows :
    (b : Board) (db : Db) (id : Key) (reason : Words)
    → Grows b db
    → Grows b (set_hold_reason db id reason).0
unfolding set_hold_reason
set_hold_reason-Grows b db id reason = write-Grows b db _ _ _ (λ x. refl)

hold_anew-db :
    (w : World) (run : Run) (reason : Words)
    → (hold_anew w run reason).db ≡ (set_hold_reason w.db run.id reason).0
unfolding hold_anew published
hold_anew-db w run reason = ground arith

hold_if-Grows :
    {A : Type 0} (d : Dec A) (b : Board) (w : World) (run : Run) (reason : Words)
    → Grows b w.db
    → Grows b (hold_if d w run reason).db
unfolding hold_if
hold_if-Grows (yes same) b w run reason g = g
hold_if-Grows (no changed) b w run reason g =
    subst (Grows b) (sym (hold_anew-db w run reason)) (set_hold_reason-Grows b w.db run.id reason g)

pub hold-Grows :
    (b : Board) (w : World) (run : Run) (reason : Words)
    → Grows b w.db
    → Grows b (hold w run reason).db
unfolding hold
hold-Grows b w run reason = hold_if-Grows (Words-discrete run.hold_reason reason) b w run reason

pub create_run-Grows :
    (b : Board) (db : Db) (run : Run) {db' : Db}
    → IsBirth run.state
    → create_run db run ≡ ok db'
    → Grows b db
    → Grows b db'
unfolding create_run
create_run-Grows b db run {db'} birth h g =
    Grows-same b (record db { runs = db.runs ++ run ∷ [] }) db' (ground arith)
      (record { path = ⇒*-trans g.path (append-⇒* db.runs run birth) })
