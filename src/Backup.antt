-- ===== src/Backup.antt =====
-- Backups (internal/backup).
pub mod Prune
