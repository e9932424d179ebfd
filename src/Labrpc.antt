-- ===== src/Labrpc.antt =====
-- src/labrpc: the network that the labs run on.
pub mod Server
pub mod Network
pub mod Once
pub mod Routing
mod Tests
