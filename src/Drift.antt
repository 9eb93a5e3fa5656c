-- ===== src/Drift.antt =====
-- The package internal/configdrift: the desired configuration files against the live ones.
pub mod Lines
pub mod Redact
pub mod Report
