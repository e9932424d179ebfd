-- ===== src/Kvsrv.antt =====
-- src/kvsrv: the key/value server of one machine and its clerks.
pub mod Server
pub mod Clerk
pub mod Calls
pub mod Once
mod Tests
