-- ===== src/CronSync.antt =====
-- cmd/cronbat/cronsync.go: the jobs in the user's crontab, between two marker lines.
pub mod Merge
pub mod Entries
mod Tests
