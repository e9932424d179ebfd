-- ===== src/Mr.antt =====
-- src/mr: MapReduce.
pub mod Types
pub mod Coordinator
pub mod Counting
pub mod Counted
pub mod Progress
pub mod Repeats
pub mod Handing
pub mod Worker
pub mod Grouping
pub mod Sequential
pub mod Order
pub mod Lines
pub mod Reduced
pub mod Shares
pub mod Texts
pub mod Agreement
pub mod Applications
pub mod Counts
pub mod Index
mod Tests
