-- ===== src/Document.antt =====
-- services/document-service: the domain, the repositories and the service, and what is proved of
-- them.
pub mod Domain
pub mod Repository
pub mod Service
pub mod Lifecycle
pub mod Effects
pub mod Validation
pub mod Operations
pub mod Refinement
pub mod Invariants
pub mod Frozen
pub mod Kept
pub mod Refusals
pub mod Errors
pub mod Overdue
pub mod Progress
pub mod Writes
pub mod Silence
mod Tests
pub mod Csv
pub mod CsvReader
pub mod Export
pub mod Exported
