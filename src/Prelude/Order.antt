-- ===== src/Prelude/Order.antt =====
-- Rust's `Ord`: the interface, and the instances of the standard library.
mod Defs
mod Instances
pub use Defs.*
pub use Instances.*
