-- ===== src/Shard.antt =====
-- src/shardctrler and src/shardkv: the clerks of the sharded service.
pub mod Ctrler
pub mod Clerk
pub mod Asking
pub mod Serving
pub mod Getting
mod Tests
