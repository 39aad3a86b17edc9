-- ===== src/Automation.antt =====
-- backend/src/api/automation: what the workers do by themselves.
pub mod Timers
pub mod Pipeline
