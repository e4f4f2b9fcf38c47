-- ===== src/Triggers.antt =====
-- internal/service/triggers: the stages of the trigger engine that decide whether a rule fires.
pub mod Conditions
pub mod Match
pub mod Template
pub mod Firing
pub mod Actions
pub mod Engine
