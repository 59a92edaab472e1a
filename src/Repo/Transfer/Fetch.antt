-- ===== src/Repo/Transfer/Fetch.antt =====
-- src/repo/transfer/fetch.rs: the whole of a fetch.
pub mod Defs
pub mod Sorted
pub mod Safe
