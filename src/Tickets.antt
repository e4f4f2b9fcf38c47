-- ===== src/Tickets.antt =====
-- internal/service/tickets: cards on a board. A position is a float64 that is not negative, as the number of
-- its bit pattern: the numbers have the order of the floats, and 0 is the float 0.
pub mod Position
pub mod Desk
pub mod Move
pub mod Archive
