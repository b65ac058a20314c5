-- ===== src/RunLog.antt =====
-- internal/runlog/manager.go: the files that keep the output of the runs.
pub mod Capped
pub mod Files
pub mod Writers
pub mod Cleanup
mod Tests
