-- ===== src/Repo/Transfer.antt =====
-- src/repo/transfer: the transfer of operations and of Git objects between two repos.
pub mod Batch
pub mod Receive
pub mod Reachable
pub mod Apply
pub mod Serve
pub mod Samples
pub mod Loose
pub mod Closure
pub mod Objects
pub mod Fetch
