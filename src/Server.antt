-- ===== src/Server.antt =====
-- src/server.ts: the application and the process.
pub mod Readiness
pub mod Ready
pub mod Application
pub mod Documented
pub mod Shutdown
mod Tests
