-- ===== src/Config.antt =====
-- internal/config: jobs and their files, and the daemon's settings
pub mod Job
pub mod Files
pub mod Saving
pub mod Defaults
mod Tests
