-- ===== src/Bus/Balance/Whole.antt =====
-- No delivery is lost, and none is made twice.
use lexicode.Prelude.{ℕ, ◌+◌, ◌≡◌, List, arith, length}
use lexicode.Domain.Words.{Key, Time}
use lexicode.Bus.{Row, Bus}
use lexicode.Bus.Steps.{new, ◌⇝*◌}
use lexicode.Bus.Balance.{answered, replied}
use lexicode.Bus.Balance.Even.{times, told_by, in_work, in_queue}
use lexicode.Bus.Balance.Even.Steps.{⇝*-Even, new-Even}
use lexicode.Bus.Balance.Moves.{new-Balanced}

-- However publishers, subscribers and the process interleave, each subscription that an event was dispatched to
-- has its own delivery in exactly one place, as often as it is among those: it has answered, its handler works
-- on it, it is in its queue, its queue had no room, or the publisher has not come to it; and what remains to be
-- reported is what was expected, one for each of those subscriptions, but the reported answers.
pub ⇝*-expected :
    (t : ℕ) (s : Key) (table : List Row) (buf_size : ℕ) (at : Time) {b : Bus}
    → new table buf_size at ⇝* b
    → (times s (b.dispatches t).whom
        ≡ told_by t s b
          + in_work t s b
          + in_queue t s b
          + times s (b.dispatches t).full
          + times s (b.dispatches t).offered)
      × ((b.dispatches t).expected ≡ length (b.dispatches t).whom)
      × ((b.dispatches t).expected + answered t b ≡ (b.dispatches t).remaining + replied t b)
⇝*-expected t s table buf_size at {b} path =
    let (whole, even) =
      ⇝*-Even t s path (new-Balanced t table buf_size at) (new-Even t s table buf_size at) in
    (omega (arith, even.each), even.size, whole.books.told)
