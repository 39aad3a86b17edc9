-- ===== src/Sla.antt =====
-- backend/src/api/sla: the calendar of business hours and the deadlines built on it.
pub mod Calendar
pub mod Engine
