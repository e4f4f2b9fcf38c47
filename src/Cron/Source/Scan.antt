-- ===== src/Cron/Source/Scan.antt =====
-- A scan of internal/module/cron/source.go fires a schedule at most once for a minute.
use lexicode.Prelude.{
  ℕ, ◌≡◌, refl, ◌∙◌, sym, ap, Bool, true, false, List, [], ◌∷◌, ◌++◌, Option, none, some, Result,
  ok, err, any, first_where, first_where-some, Bool-cases, Option-cases, ◌⊎◌, inl, inr, arith,
}
use lexicode.Prelude.Lists.Rows.{first_where-update}
use lexicode.Domain.Words.{Time}
use lexicode.Domain.Payload.{Text}
use lexicode.Cron.Expr.{Atoi, Expr, Moment, CronError, parse}
use lexicode.Cron.Source.{
  Schedule, Cursor, CronStep, read_cursor, write_cursor, emit_event, Cursors, is_cursor, cursor_of,
  write_at, position, hits, latest_match, emit_at, from_position, with_expr, scan_trigger,
}
use lexicode.Cron.Source.Latest.{latest_match-greatest}

first_where-none-any :
    {A : Type 0} (p : A → Bool) (xs : List A) → any p xs ≡ false → first_where p xs ≡ none
unfolding any first_where
first_where-none-any p [] h = refl
first_where-none-any p (x ∷ xs) h = ground (arith, first_where-none-any p xs)

first_where-any :
    {A : Type 0} (p : A → Bool) (xs : List A)
    → any p xs ≡ true
    → (x : A) × (first_where p xs ≡ some x)
unfolding any first_where
first_where-any p [] h = absurd (cc)
first_where-any p (x ∷ xs) h = elim (Bool-cases (p x)) [
  | inl e ↦ (x, rw e refl)
  | inr e ↦ let (y, found) = first_where-any p xs (rw e at h) in (y, rw e found)
]

first_where-append :
    {A : Type 0} (p : A → Bool) (xs : List A) (y : A)
    → any p xs ≡ false
    → p y ≡ true
    → first_where p (xs ++ y ∷ []) ≡ some y
unfolding any first_where
first_where-append p [] y h k = rw k refl
first_where-append p (x ∷ xs) y h k = ground (arith, first_where-append p xs y)

abbrev new_cursor : Schedule → Time → Cursor
new_cursor tr t = record { project_id = tr.project_id; trigger_id = tr.id; at = some t }

-- A cursor that is written is the position of the schedule.
write_at-position :
    (s : Cursors) (tr : Schedule) (t : Time)
    → s.down (write_cursor tr.id) ≡ false
    → position (cursor_of (write_at s tr t) tr) ≡ some t
unfolding write_at cursor_of
write_at-position s tr t up = elim (Bool-cases (any (is_cursor tr) s.rows)) [
  | inl e ↦
      let (c, found) = first_where-any (is_cursor tr) s.rows e in
      rw (up, e)
        (rw
          (first_where-update (is_cursor tr) (is_cursor tr) (λ c. record c { at = some t })
            (λ x. refl) s.rows found)
          (ground (arith, first_where-some (is_cursor tr) s.rows c found)))
  | inr e ↦
      rw (up, e)
        (rw (first_where-append (is_cursor tr) s.rows (new_cursor tr t) e (ground arith)) refl)
]

write_at-down : (s : Cursors) (tr : Schedule) (t : Time) → (write_at s tr t).down ≡ s.down
unfolding write_at
write_at-down s tr t = ground arith

-- No minute after the one that was found matches.
latest_match-done :
    (hit : Time → Bool) (since until at : Time) (lookback : ℕ)
    → latest_match hit since until lookback ≡ some at
    → latest_match hit at until lookback ≡ none
latest_match-done hit since until at lookback h =
    elim (Option-cases (latest_match hit at until lookback)) [
      | inl e ↦ e
      | inr (r, e) ↦
          let (here, after, near, below, (j, on)) =
            (latest_match-greatest hit at until lookback).0 r e in
          let (first, since_first, near_first, below_first, on_first) =
            (latest_match-greatest hit since until lookback).0 at h in
          let (q, found, le) =
            (latest_match-greatest hit since until lookback).1 r j on (omega arith) near here in
          let same : q ≡ at = ground (arith, h, found) in absurd (omega arith)
    ]

latest_match-now :
    (hit : Time → Bool) (until : Time) (lookback : ℕ) → latest_match hit until until lookback ≡ none
latest_match-now hit until lookback = elim (Option-cases (latest_match hit until until lookback)) [
  | inl e ↦ e
  | inr (r, e) ↦
      let (here, after, near, below, rest) =
        (latest_match-greatest hit until until lookback).0 r e in
      absurd (omega arith)
]

module _ (atoi : Text → Atoi) (calendar : Time → Moment) (lookback : ℕ) (t : Time)
    (tr : Schedule) where
  -- The position of the schedule leaves nothing to fire for at `t`.
  abbrev Done : Expr → Cursors → Type 0
  Done expr s =
      (p : Time) × (position (cursor_of s tr) ≡ some p)
      × (latest_match (hits atoi calendar lookback expr) p t lookback ≡ none)

  from_position-Done :
      (text : Text) (expr : Expr) (s : Cursors) (o : Option Time)
      → position (cursor_of s tr) ≡ o
      → s.down (write_cursor tr.id) ≡ false
      → s.down (emit_event tr.id) ≡ false
      → Done expr (from_position atoi calendar lookback tr text expr t s o)
        × ((from_position atoi calendar lookback tr text expr t s o).down ≡ s.down)
  unfolding from_position emit_at
  from_position-Done text expr s none at up out =
      ((t, write_at-position s tr t up, latest_match-now _ t lookback), write_at-down s tr t)
  from_position-Done text expr s (some since) at up out =
      elim (Option-cases (latest_match (hits atoi calendar lookback expr) since t lookback)) [
        | inl e ↦ rw (e, from_position) ((since, at, e), refl)
        | inr (r, e) ↦
            let s' : Cursors = record s {
              emitted = s.emitted ++ record { trigger_id = tr.id; expr = text; fired_at = r } ∷ [];
            } in
            rw (e, from_position)
              (rw (out, emit_at)
                (
                  (r, write_at-position s' tr r up, latest_match-done _ since t r lookback e),
                  write_at-down s' tr r,
                ))
      ]

  from_position-again :
      (text : Text) (expr : Expr) (s : Cursors)
      → s.down (read_cursor tr.id) ≡ false
      → Done expr s
      → with_expr atoi calendar lookback tr text t s (ok expr) ≡ s
  unfolding with_expr from_position
  from_position-again text expr s readable (p, at, none_left) =
      ground (arith, readable, at, none_left)

  with_expr-again :
      (text : Text) (res : Result CronError Expr) (s : Cursors)
      → s.down (read_cursor tr.id) ≡ false
      → s.down (write_cursor tr.id) ≡ false
      → s.down (emit_event tr.id) ≡ false
      → with_expr atoi calendar lookback tr text t
          (with_expr atoi calendar lookback tr text t s res)
          res
        ≡ with_expr atoi calendar lookback tr text t s res
  unfolding with_expr
  with_expr-again text (err e) s readable up out = refl
  with_expr-again text (ok expr) s readable up out =
      let s' = from_position atoi calendar lookback tr text expr t s (position (cursor_of s tr)) in
      let (done, same) = from_position-Done text expr s (position (cursor_of s tr)) refl up out in
      let first : with_expr atoi calendar lookback tr text t s (ok expr) ≡ s' =
        ground (arith, readable) in
      ap (λ (c : Cursors). with_expr atoi calendar lookback tr text t c (ok expr)) first
      ∙ from_position-again text expr s'
          (ap (λ (d : CronStep → Bool). d (read_cursor tr.id)) same ∙ readable) done
      ∙ sym first

  scan_trigger-cases :
      ((s : Cursors) → scan_trigger atoi calendar lookback t tr s ≡ s)
      ⊎ ((text : Text) × ((s : Cursors)
            → scan_trigger atoi calendar lookback t tr s
              ≡ with_expr atoi calendar lookback tr text t s (parse atoi text)))
  unfolding scan_trigger
  scan_trigger-cases = elim (Option-cases tr.cron) [
    | inl e ↦ inl (λ s. ground (arith, e))
    | inr (text, e) ↦ elim (Bool-cases tr.is_schedule) [
      | inr k ↦ inl (λ s. ground (arith, e, k))
      | inl k ↦ inr (text, λ s. ground (arith, e, k))
    ]
  ]

  -- A schedule that was scanned, with its statements going through, is not fired again by another scan
  -- in the same minute: nothing is emitted and no cursor moves.
  pub scan_trigger-again :
      (s : Cursors)
      → s.down (read_cursor tr.id) ≡ false
      → s.down (write_cursor tr.id) ≡ false
      → s.down (emit_event tr.id) ≡ false
      → scan_trigger atoi calendar lookback t tr (scan_trigger atoi calendar lookback t tr s)
        ≡ scan_trigger atoi calendar lookback t tr s
  scan_trigger-again s readable up out = elim scan_trigger-cases [
    | inl idle ↦ idle (scan_trigger atoi calendar lookback t tr s)
    | inr (text, runs) ↦
        runs (scan_trigger atoi calendar lookback t tr s)
        ∙ ap (λ (c : Cursors). with_expr atoi calendar lookback tr text t c (parse atoi text))
            (runs s)
        ∙ with_expr-again text (parse atoi text) s readable up out
        ∙ sym (runs s)
  ]
