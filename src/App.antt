-- ===== src/App.antt =====
-- internal/app: the use cases.
pub mod PreAnalysis
pub mod Receive
pub mod Runs
mod Tests
