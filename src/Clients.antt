-- ===== src/Clients.antt =====
-- backend/src/api/clients: the resilience of the calls of other services.
pub mod Breaker
pub mod Retry
pub mod Request
