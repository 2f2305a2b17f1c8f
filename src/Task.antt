-- ===== src/Task.antt =====
-- services/task-service: the domain, the repositories and the service, and what is proved of them.
pub mod Domain
pub mod Repository
pub mod Service
pub mod Lifecycle
pub mod Effects
pub mod Refinement
pub mod Invariants
pub mod Frozen
pub mod Kept
pub mod Refusals
pub mod Outcomes
pub mod Audit
pub mod Progress
pub mod Overdue
pub mod Errors
pub mod Listing
pub mod Validation
pub mod Operations
mod Tests
