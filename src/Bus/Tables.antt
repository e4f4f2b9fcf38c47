-- ===== src/Bus/Tables.antt =====
-- The steps that leave the table of events as it is.
use lexicode.Prelude.{Bool, Result, ok, err, ◌≡◌, refl, ℕ, arith}
use lexicode.Domain.Words.{Key}
use lexicode.Domain.Rows.{Event}
use lexicode.Bus.{Bus, BusError, subscribe, start_bus, after_recovery}
use lexicode.Bus.Queues.{offer, wait, abandon, take, returns, with_dispatch}

pub offer-table : (t : ℕ) (b : Bus) → (offer t b).table ≡ b.table
unfolding offer with_dispatch
offer-table t b = ground arith

pub wait-table : (t : ℕ) (b : Bus) → (wait t b).table ≡ b.table
unfolding wait with_dispatch
wait-table t b = ground arith

pub abandon-table : (t : ℕ) (b : Bus) → (abandon t b).table ≡ b.table
unfolding abandon with_dispatch
abandon-table t b = ground arith

pub take-table : (sub : Key) (b : Bus) → (take sub b).table ≡ b.table
unfolding take
take-table sub b = ground arith

pub returns-table : (sub : Key) (good : Bool) (b : Bus) → (returns sub good b).table ≡ b.table
unfolding returns with_dispatch
returns-table sub good b = ground arith

pub subscribe-table :
    (name : Key) (matches : Event → Bool) (b : Bus) → (subscribe name matches b).0.table ≡ b.table
unfolding subscribe
subscribe-table name matches b = ground arith

pub start-table : (lists : Bool) (b : Bus) → (start_bus lists b).0.table ≡ b.table
unfolding start_bus
start-table lists b = ground arith

pub after_recovery-table :
    (r : Bus × Result BusError (Unit {0})) → (after_recovery r).table ≡ r.0.table
unfolding after_recovery
after_recovery-table (b, ok u) = refl
after_recovery-table (b, err e) = refl
