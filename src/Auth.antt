-- ===== src/Auth.antt =====
-- services/auth-service: registration, sign-in, tokens and passwords.
pub mod Domain
pub mod Repository
pub mod Service
pub mod Tokens
pub mod Spent
pub mod Redeem
pub mod Passwords
pub mod SignIn
pub mod Login
pub mod Errors
mod Tests
