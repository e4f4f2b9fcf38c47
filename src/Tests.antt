-- ===== src/Tests.antt =====
-- The theorems applied to concrete worlds.
pub mod Sample
pub mod Sched
pub mod Guard
pub mod Store
pub mod Triggers
pub mod Cron
pub mod Kernel
pub mod Engine
pub mod Mentions
pub mod Proxy
pub mod Bus
pub mod Tickets
