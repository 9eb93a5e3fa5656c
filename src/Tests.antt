-- ===== src/Tests.antt =====
-- Runs of the model on concrete inputs: each applies a theorem or computes an answer.
mod Access
mod Backups
mod Drift
mod Filters
mod Limits
mod Policy
mod Sessions
mod SharedLimits
mod Service
