-- ===== src/Backup/Schedule.antt =====
-- The schedules of packages/backend/src/services/backupService.ts, the route `PUT /schedules/:vmUuid` of
-- packages/backend/src/routes/backups.ts and packages/backend/src/services/backupSchedulerService.ts.
pub mod Types
pub mod Next
pub mod NextLaws
pub mod Store
pub mod Put
pub mod Run
pub mod Laws
pub mod Files
pub mod Reach
pub mod Started
