-- ===== src/Cron/Source.antt =====
-- internal/module/cron/source.go: which minute of its schedule a trigger fires for, and the cursor that
-- remembers it. Times are milliseconds; the calendar of package time and Atoi are arguments. Moments lie
-- more than the lookback after the epoch, so `-` does not stop at 0 where the source goes on.
pub mod Latest
pub mod Scan
use lexicode.Prelude.{
  ℕ, zero, suc, ◌+◌, ◌-◌, Bool, true, false, not, ◌&&◌, List, [], ◌∷◌, ◌++◌, Option, none, some,
  Result, ok, err, ◌==◌, ltb, if◌then◌else◌, first_where, update_where, any,
}
use lexicode.Domain.Words.{Key, Time}
use lexicode.Domain.Payload.{Text}
use lexicode.Cron.Expr.{Atoi, Expr, Moment, CronError, parse, matches}

abbrev pub minute_ms : ℕ
minute_ms = 60000

abbrev pub later_of : Time → Time → Time
later_of s t = if ltb s t then t else s

-- The loop of `latestMatch`, with fuel for its steps.
unfoldable pub search_back : (fuel : ℕ) (hit : Time → Bool) (floor m : Time) → Option Time
search_back zero hit floor m = none
search_back (suc f) hit floor m =
    let rest = search_back f hit floor (m - minute_ms) in
    if ltb floor m then (if hit m then some m else rest) else none

-- `latestMatch`: each step goes back by more than one, so `until + 1` is fuel enough.
unfoldable pub latest_match : (hit : Time → Bool) (since until : Time) (lookback : ℕ) → Option Time
unfolding search_back
latest_match hit since until lookback =
    search_back (suc until) hit (later_of (until - lookback) since) until

-- A schedule trigger; `kind` says that its event is the one of this source.
pub record Schedule : Type 0 where
  pub id : Key
  pub project_id : Key
  pub is_schedule : Bool
  pub cron : Option Text

-- A row of poll_cursors for a schedule; an unreadable cursor is `none`.
pub record Cursor : Type 0 where
  pub project_id : Key
  pub trigger_id : Key
  pub at : Option Time

-- What `event` and its dedupe key say of an occurrence.
pub record Occurrence : Type 0 where
  pub trigger_id : Key
  pub expr : Text
  pub fired_at : Time

pub data CronStep : Type 0 where
  read_cursor write_cursor emit_event : (trigger : Key) → CronStep
  read_triggers : CronStep

pub record Cursors : Type 0 where
  pub rows : List Cursor
  pub emitted : List Occurrence
  pub schedules : List Schedule
  pub down : CronStep → Bool

abbrev pub is_cursor : Schedule → Cursor → Bool
is_cursor tr c = c.project_id == tr.project_id && c.trigger_id == tr.id

-- `Get` of the poll cursors.
unfoldable pub cursor_of : Cursors → Schedule → Option Cursor
unfolding first_where
cursor_of s tr = first_where (is_cursor tr) s.rows

-- `writeCursor` and `Upsert`; a failure is logged.
unfoldable pub write_at : Cursors → Schedule → Time → Cursors
unfolding any update_where
write_at s tr t =
    if s.down (write_cursor tr.id)
    then s
    else if any (is_cursor tr) s.rows
    then record s { rows = update_where (is_cursor tr) (λ c. record c { at = some t }) s.rows }
    else record s {
      rows = s.rows ++ record { project_id = tr.project_id; trigger_id = tr.id; at = some t } ∷ [];
    }

-- The position that a cursor holds; none of a trigger that is seen for the first time.
abbrev pub position : Option Cursor → Option Time
position none = none
position (some c) = c.at

module _ (atoi : Text → Atoi) (calendar : Time → Moment) (lookback : ℕ) where
  abbrev pub hits : Expr → Time → Bool
  hits expr t = matches expr (calendar t)

  -- The event for this minute, and the cursor if it went out.
  unfoldable pub emit_at : Schedule → Text → Cursors → Time → Cursors
  unfolding write_at
  emit_at tr expr s at =
      if s.down (emit_event tr.id)
      then s
      else write_at
          (record s {
            emitted = s.emitted ++ record { trigger_id = tr.id; expr = expr; fired_at = at } ∷ [];
          })
          tr at

  -- From the point where the position is known; a zero position is none.
  unfoldable pub from_position : Schedule → Text → Expr → Time → Cursors → Option Time → Cursors
  from_position tr text expr t s none = write_at s tr t
  from_position tr text expr t s (some since) = elim (latest_match (hits expr) since t lookback) [
    | none ↦ s
    | some at ↦ emit_at tr text s at
  ]

  unfoldable pub with_expr : Schedule → Text → Time → Cursors → Result CronError Expr → Cursors
  with_expr tr text t s (err e) = s
  with_expr tr text t s (ok expr) =
      if s.down (read_cursor tr.id)
      then s
      else from_position tr text expr t s (position (cursor_of s tr))

  -- `scanTrigger`
  unfoldable pub scan_trigger : Time → Schedule → Cursors → Cursors
  scan_trigger t tr s = elim tr.cron [
    | none ↦ s
    | some text ↦ if tr.is_schedule then with_expr tr text t s (parse atoi text) else s
  ]

  -- `ended tr` says that the context has ended when the scan reaches that schedule.
  unfoldable pub scan_all : (ended : Schedule → Bool) → Time → List Schedule → Cursors → Cursors
  scan_all ended t [] s = s
  scan_all ended t (tr ∷ trs) s =
      let rest = scan_all ended t trs (scan_trigger t tr s) in if ended tr then s else rest

  -- `scan`, at the start `t` of a minute.
  unfoldable pub scan : (ended : Schedule → Bool) → Time → Cursors → Cursors
  unfolding scan_all
  scan ended t s = if s.down read_triggers then s else scan_all ended t s.schedules s
