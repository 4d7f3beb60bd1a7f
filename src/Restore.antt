-- ===== src/Restore.antt =====
-- restore_plan.go: comparing log sequence numbers and planning a restore from backup history.
pub mod Lsn
pub mod Plan
pub mod Kinds
