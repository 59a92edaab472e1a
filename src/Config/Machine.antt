-- ===== src/Config/Machine.antt =====
-- src/config/state/machine.rs: the record that this machine gossips about itself.
mod Defs
mod Laws
pub use Defs.{Machine, text_eq, own_record, outranking, default_machine}
unfoldable pub use Defs.{rename, observe, short_hostname}
pub use Laws.*
