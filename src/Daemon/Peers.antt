-- ===== src/Daemon/Peers.antt =====
-- src/daemon/peers.rs: the set of peers, and the task that keeps the connection to each. A connection is a
-- value of some type; closing it is recorded, with the reason. Times are numbers.
pub mod Defs
pub mod Alignment
pub mod Task
pub mod Retries
pub mod Duplicates
