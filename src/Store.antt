-- ===== src/Store.antt =====
-- internal/kernel/store: the tables, and the queries and updates that the kernel makes of them.
pub mod Db
pub mod Runs
pub mod Budget
pub mod Queries
