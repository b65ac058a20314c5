-- ===== src/Web.antt =====
-- The web API of internal/web/api.
pub mod Status
pub mod Import
pub mod Api
pub mod Jobs
pub mod Routes
pub mod Runs
