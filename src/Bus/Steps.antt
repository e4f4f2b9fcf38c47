-- ===== src/Bus/Steps.antt =====
-- The bus as a transition system: publishers, subscribers and the process interleave as they like.
use lexicode.Prelude.{ℕ, Bool, false, List, []}
use lexicode.Domain.Words.{Key, Time}
use lexicode.Domain.Rows.{Event}
use lexicode.Bus.{Row, Bus, no_dispatch, subscribe, publish, start_bus, recover}
use lexicode.Bus.Queues.{offer, wait, abandon, take, returns, report, stop_bus}

-- `New`: a bus over a table that a previous process left.
abbrev pub new : (table : List Row) (buf_size : ℕ) (booted_at : Time) → Bus
new table buf_size booted_at = record {
  table = table;
  subs = [];
  queue = [];
  busy = [];
  dispatches = λ t. no_dispatch;
  next = 0;
  replies = [];
  backlog = [];
  buf_size = buf_size;
  booted_at = booted_at;
  started = false;
  stopped = false;
}

infix 40 ◌⇝◌ ◌⇝*◌
pub data ◌⇝◌ (b : Bus) : Bus → Type 0 where
  subscribes : (name : Key) (matches : Event → Bool) → b ⇝ (subscribe name matches b).0
  publishes :
      (inserts saves : Bool) (created_at : Time) (key : Key) (e : Event)
      → b ⇝ (publish inserts saves created_at key e b).0
  starts : (lists : Bool) → b ⇝ (start_bus lists b).0
  recovers : (saves : Bool) → b ⇝ recover saves b
  offers : (t : ℕ) → b ⇝ offer t b
  waits : (t : ℕ) → b ⇝ wait t b
  abandons : (t : ℕ) → b ⇝ abandon t b
  takes : (sub : Key) → b ⇝ take sub b
  answers : (sub : Key) (good : Bool) → b ⇝ returns sub good b
  reports : (saves : Bool) (sub : Key) → b ⇝ report saves sub b
  halts : b ⇝ stop_bus b

pub data ◌⇝*◌ (b : Bus) : Bus → Type 0 where
  idle : b ⇝* b
  then_step : {c d : Bus} → b ⇝* c → c ⇝ d → b ⇝* d
