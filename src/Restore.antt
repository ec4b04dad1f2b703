-- ===== src/Restore.antt =====
-- Restoring a backup: frontend/src/services/backup/restore.
pub mod Errors
pub mod Objects
pub mod Records
pub mod Loop
pub mod Payloads
