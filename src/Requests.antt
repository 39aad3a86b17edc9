-- ===== src/Requests.antt =====
-- backend/src/api/requests: the service request, its state machine and its services.
pub mod Enums
pub mod Fsm
pub mod Models
pub mod Store
pub mod Access
pub mod Lifecycle
pub mod Detail
pub mod Service
pub mod Intake
pub mod Classify
pub mod Assign
pub mod Acceptance
pub mod Partner
pub mod Calls
pub mod Pagination
