-- ===== src/Daemon/Hub/Outbox.antt =====
-- src/daemon/hub/outbox.rs: the messages that wait for one peer.
mod Defs
mod Order
pub use Defs.*
unfoldable pub use Defs.{pop, send_all}
pub use Order.*
