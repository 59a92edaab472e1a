-- ===== src/Daemon/Hub/Inbox.antt =====
-- src/daemon/hub/inbox.rs: the announcements of one repo, one slot for each peer.
mod Defs
mod Watermark
mod Delivery
pub use Defs.*
unfoldable pub use Defs.{advance, drain_slots, snapshot, requeue_slots}
pub use Watermark.*
pub use Delivery.*
