-- ===== src/Models.antt =====
-- src/models: the sequential models that histories are checked against.
pub mod Kv
pub mod Server
pub mod Runs
mod Tests
