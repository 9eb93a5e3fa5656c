-- ===== src/Session.antt =====
-- The package internal/session: login rate limits and browser sessions.
pub mod Penalty
pub mod Limiter
pub mod Interface
pub mod Ledger
pub mod Keys
pub mod Tables
pub mod AuthSpray
pub mod SqlLimiter
pub mod Manager
