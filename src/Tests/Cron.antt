-- ===== src/Tests/Cron.antt =====
-- The theorems on schedules at short expressions.
use lexicode.Prelude.{
  ℕ, ◌+◌, ◌-◌, ◌*◌, ◌%◌, ◌≤◌, ◌<◌, ◌==◌, some, Bool, ◌≡◌, refl, true, false, [], ◌∷◌, ok, arith,
  ◌||◌, none,
}
use lexicode.Domain.Payload.{Text, codes, same_text}
use lexicode.Domain.Words.{Time}
use lexicode.Cron.Source.{
  minute_ms, latest_match, Schedule, Cursors, scan_trigger, with_expr, from_position, cursor_of,
  emit_at,
}
use lexicode.Cron.Source.Latest.{latest_match-greatest}
use lexicode.Cron.Source.Scan.{scan_trigger-again}
use lexicode.Cron.Expr.{
  Moment, Atoi, no_number, number, no_bits, mark, month_spec, bit_or, fold_sunday, parse_part,
  parse_parts, parse_bounds, parse_value, parse_field, parse, Expr, matches,
}
use lexicode.Cron.Expr.Range.{parse_field_within}

-- One digit is a number.
abbrev digit : Text → Atoi
digit (c ∷ []) = number (c - b'0')
digit _ = no_number

abbrev from_march : ℕ → Bool
from_march w = w == 5 || (w == 4 || (w == 3 || false))

months : parse_field digit month_spec (codes "mar-5") ≡ ok (bit_or no_bits from_march)
unfolding parse_field parse_parts parse_part parse_bounds same_text parse_value mark
months = refl

parse_field_within_example : (1 ≤ 4) × (4 ≤ 12)
parse_field_within_example =
    parse_field_within digit month_spec (codes "mar-5") 4 {bits = bit_or no_bits from_march}
      (ground arith) months refl

abbrev only : ℕ → ℕ → Bool
only v w = w == v || false

-- A step that the increment carries over the end of an int.
wraps : mark 60 1 59 9223372036854775807 no_bits ≡ none
unfolding mark
wraps = refl

-- Sundays that are the first of January, at midnight.
abbrev sunday : Expr
sunday = record {
  minute = only 0;
  hour = only 0;
  dom = only 1;
  month = only 1;
  dow = fold_sunday (only 7);
  dom_star = false;
  dow_star = false;
}

sundays : parse digit (codes "0 0 1 jan 7") ≡ ok sunday
unfolding parse parse_field parse_parts parse_part parse_bounds same_text parse_value mark
sundays = refl

-- A schedule of every whole hour.
abbrev hourly : Time → Bool
hourly t = t % 3600000 == 0

latest_match-greatest_example :
    ((r : Time)
      → latest_match hourly 100000 7260000 86400000 ≡ some r
      → (hourly r ≡ true)
        × (100000 < r)
        × (7260000 - 86400000 < r)
        × (r ≤ 7260000)
        × ((j : ℕ) × (r + j * minute_ms ≡ 7260000)))
    × ((x j : ℕ)
        → x + j * minute_ms ≡ 7260000
        → 100000 < x
        → 7260000 - 86400000 < x
        → hourly x ≡ true
        → (r : Time) × (latest_match hourly 100000 7260000 86400000 ≡ some r) × (x ≤ r))
latest_match-greatest_example = latest_match-greatest hourly 100000 7260000 86400000

abbrev schedule : Schedule
schedule = record { id = 5; project_id = 1; is_schedule = true; cron = some (codes "* * * * *") }

abbrev cursors : Cursors
cursors = record {
  rows = record { project_id = 1; trigger_id = 5; at = some 60000 } ∷ [];
  emitted = [];
  schedules = schedule ∷ [];
  down = λ q. false;
}

abbrev midnight : Time → Moment
midnight t = record { minute = 0; hour = 0; day = 1; month = 1; weekday = 4 }

scan_trigger-again_example :
    scan_trigger digit midnight 600000 180000 schedule
      (scan_trigger digit midnight 600000 180000 schedule cursors)
    ≡ scan_trigger digit midnight 600000 180000 schedule cursors
scan_trigger-again_example =
    scan_trigger-again digit midnight 600000 180000 schedule cursors refl refl refl

-- The first of these scans fires the schedule for its minute.
scans :
    (scan_trigger digit midnight 600000 180000 schedule cursors).emitted
    ≡ record { trigger_id = 5; expr = codes "* * * * *"; fired_at = 180000 } ∷ []
unfolding scan_trigger with_expr parse parse_field parse_parts parse_part parse_bounds same_text
    from_position cursor_of latest_match matches emit_at
scans = refl
