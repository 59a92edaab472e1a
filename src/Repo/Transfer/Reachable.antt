-- ===== src/Repo/Transfer/Reachable.antt =====
-- `ensure_batch_reachable` of src/repo/transfer/fetch.rs. The fuel is the number of the wants and of all the
-- parents in the batch.
pub mod Defs
pub mod Walk
pub mod Laws
