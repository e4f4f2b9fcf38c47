-- ===== src/Domain.antt =====
-- internal/domain: the states of a run, the rows that the kernel reads, and the payload of an event.
pub mod RunState
pub mod Words
pub mod Rows
pub mod Payload
