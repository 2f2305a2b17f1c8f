-- ===== src/Calendar.antt =====
-- services/calendar-service: the domain, the repository and the service's changes of events.
pub mod Domain
pub mod Repository
pub mod Service
pub mod Owners
pub mod Order
mod Tests
