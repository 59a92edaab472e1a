-- ===== src/Daemon/Hub.antt =====
-- src/daemon/hub: routing between peer connections and repo tasks.
pub mod Inbox
pub mod Outbox
pub mod Values
pub mod Orphans
pub mod Router
pub mod Inbound
pub mod Caps
pub mod Names
pub mod Contested
pub mod WellFormed
pub mod Invariant
pub mod Routing
pub mod Events
pub mod Contents
pub mod Replay
pub mod Cloning
