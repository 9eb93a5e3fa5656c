-- ===== src/Webmail.antt =====
-- The webmail service.
pub mod Sieve
