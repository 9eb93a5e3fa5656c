-- ===== src/Admin.antt =====
-- The administration service (internal/admin/handlers.go): who may do what, and which names it takes.
pub mod Access
pub mod Calls
pub mod Handlers
pub mod Models
pub mod Names
pub mod Policy
pub mod Rows
pub mod Service
pub mod SqlStore
