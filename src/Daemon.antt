-- ===== src/Daemon.antt =====
-- src/daemon: the backoff of the retry loops, the hub between peers and repos, and the state's owner.
pub mod Backoff
pub mod Hub
pub mod Store
pub mod Peers
