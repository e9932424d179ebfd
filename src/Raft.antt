-- ===== src/Raft.antt =====
-- src/raft: one peer of the Raft cluster.
pub mod Types
pub mod Index
pub mod Persist
pub mod Vote
pub mod Append
pub mod Snapshot
pub mod Leader
pub mod Apply
pub mod Valid
pub mod Node
pub mod Terms
pub mod Receive
pub mod Replicate
pub mod Commit
pub mod Elect
pub mod Compact
pub mod Delivery
pub mod Backup
pub mod Cluster
pub mod Logs
pub mod Harness
mod Tests
