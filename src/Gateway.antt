-- ===== src/Gateway.antt =====
-- services/api-gateway: the middleware that every request passes.
pub mod RateLimit
pub mod Access
pub mod Idempotency
pub mod Replay
mod Tests
