-- ===== src/Web/Import.antt =====
-- The import of jobs in internal/web/api/jobs_transfer.go
pub mod Parse
pub mod Run
mod Tests
