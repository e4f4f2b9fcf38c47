-- ===== src/Cron.antt =====
-- internal/module/cron: the schedules of triggers.
pub mod Expr
pub mod Source
