-- ===== src/Backup.antt =====
-- packages/backend/src/services/backupService.ts: the backups of one VM.
pub mod Types
pub mod Disk
pub mod Chain
pub mod Retention
pub mod Delete
pub mod Plan
pub mod Scan
pub mod Schedule
