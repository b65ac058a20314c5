-- ===== src/Daemon.antt =====
-- The job management of cmd/cronbat/main.go: the closures over `jobMap`, `jobStateMap`, the
-- scheduler and the job files. The mutex `jobsMu` makes each of them atomic.
pub mod State
pub mod Validate
pub mod Invariant
pub mod Closed
pub mod Create
pub mod Enable
pub mod Remove
pub mod Settings
pub mod Yaml
pub mod Boot
pub mod Run
pub mod Samples
mod Tests
