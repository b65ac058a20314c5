-- ===== src/Runner.antt =====
-- internal/runner
pub mod RingBuffer
pub mod Env
pub mod Command
mod Tests
