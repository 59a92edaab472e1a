-- ===== src/Net.antt =====
-- src/net: the protocols between machines.
pub mod Wire
pub mod Fetch
