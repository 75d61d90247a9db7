-- ===== src/Manager.antt =====
-- service.go: the manager of services and the jobs that it starts.
pub mod Names
pub mod State
pub mod Load
pub mod Sends
pub mod Jobs
pub mod Reconcile
pub mod Order
pub mod Files
mod Tests
