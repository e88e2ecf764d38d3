-- ===== src/Auth.antt =====
-- The auth service, services/auth-service/src/auth_service: users, tokens and the endpoints.
pub mod Tables
pub mod Security
pub mod Api
pub mod Revocation
pub mod Accounts
pub mod Sessions
pub mod Samples
mod Tests
