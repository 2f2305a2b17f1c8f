-- ===== src/Mail.antt =====
-- services/mail-service: the mail queue, its templates and its jobs.
pub mod Domain
pub mod Smtp
pub mod Repository
pub mod Templates
pub mod Service
pub mod Requests
pub mod Effects
pub mod Serving
pub mod Kept
pub mod Once
pub mod Bulk
pub mod Sent
pub mod Delivery
pub mod Success
mod Tests
