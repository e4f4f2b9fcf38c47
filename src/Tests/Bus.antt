-- ===== src/Tests/Bus.antt =====
-- The theorems on the bus at one event that a subscriber handles.
use lexicode.Prelude.{
  ◌+◌, ◌≤◌, ◌≡◌, refl, true, false, [], any, select, length, count_where, update_where, arith,
}
use lexicode.Bus.{
  Bus, set_dispatch_state, finalize, subscribe, sub_names, matched, set_dispatch, track,
  dispatch_to, dispatch, publish,
}
use lexicode.Bus.Queues.{has_room, with_dispatch, offer, pull, take, returns, report}
use lexicode.Bus.Steps.{
  new, ◌⇝*◌, subscribes, publishes, offers, takes, answers, reports, idle, then_step,
}
use lexicode.Bus.Balance.{answered, replied}
use lexicode.Bus.Balance.Even.{times, told_by, in_work, in_queue}
use lexicode.Bus.Balance.Whole.{⇝*-expected}
use lexicode.Bus.Outcome.{done_in, Fate, ⇝-Acked}
use lexicode.Bus.Once.{copies, ⇝*-copies}
use lexicode.Tests.Sample.{event_11}

abbrev empty : Bus
empty = new [] 2 700

abbrev listening : Bus
listening = (subscribe 1 (λ e. true) empty).0

abbrev bus_published : Bus
bus_published = (publish true true 950 9 event_11 listening).0

abbrev answered_once : Bus
answered_once = returns 1 true (take 1 (offer 0 bus_published))

path : empty ⇝* answered_once
path =
    then_step
      (then_step
        (then_step
          (then_step (then_step idle (subscribes 1 (λ e. true)))
            (publishes true true 950 9 event_11))
          (offers 0))
        (takes 1))
      (answers 1 true)

⇝*-expected_example :
    (times 1 (answered_once.dispatches 0).whom
      ≡ told_by 0 1 answered_once
        + in_work 0 1 answered_once
        + in_queue 0 1 answered_once
        + times 1 (answered_once.dispatches 0).full
        + times 1 (answered_once.dispatches 0).offered)
    × ((answered_once.dispatches 0).expected ≡ length (answered_once.dispatches 0).whom)
    × ((answered_once.dispatches 0).expected + answered 0 answered_once
        ≡ (answered_once.dispatches 0).remaining + replied 0 answered_once)
⇝*-expected_example = ⇝*-expected 0 1 [] 2 700 path

turns_done : done_in 11 (report true 1 answered_once).table ≡ true
unfolding report finalize set_dispatch_state update_where returns take offer publish subscribe any
    dispatch matched sub_names select dispatch_to track set_dispatch has_room with_dispatch pull
    count_where
turns_done = refl

was_pending : done_in 11 answered_once.table ≡ false
unfolding returns take offer publish subscribe any dispatch matched sub_names select dispatch_to
    track set_dispatch has_room with_dispatch pull count_where
was_pending = refl

⇝-Acked_example : Fate 11 answered_once (report true 1 answered_once)
⇝-Acked_example = ⇝-Acked 11 [] 2 700 path (reports true 1) turns_done was_pending

again : empty ⇝* (publish true true 960 9 event_11 answered_once).0
again = then_step path (publishes true true 960 9 event_11)

none_first : copies 9 empty ≤ 1
unfolding count_where
none_first = omega arith

⇝*-copies_example : copies 9 (publish true true 960 9 event_11 answered_once).0 ≤ 1
⇝*-copies_example = ⇝*-copies 9 again none_first
