-- ===== src/Dispatch.antt =====
-- src/dispatch.ts: who may run an action, the budgeted content gate, and the pipeline around the
-- handlers. What the registered actions and the repository do is a parameter.
pub mod Payload
pub mod Exec
pub mod Authorize
pub mod Gate
pub mod Pays
pub mod SpendCounts
pub mod Settled
pub mod Admission
pub mod Pipeline
pub mod Access
mod Tests
