-- ===== src/User.antt =====
-- services/user-service: the users, and the cache in front of them.
pub mod Domain
pub mod Repository
pub mod Service
pub mod Members
pub mod Requests
pub mod Coherence
pub mod Sound
pub mod Changes
pub mod Transparent
pub mod Stale
mod Tests
