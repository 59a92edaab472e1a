-- ===== src/Repo/Store.antt =====
-- src/repo/open.rs and src/repo/write.rs: the operation store of an open repo, which is what its directories
-- hold. jj reads the bytes of a stored operation or view by its own readers, and makes up the root operation,
-- whose id is all zeros and is the id of the root view too; reading and writing a file do not fail.
pub mod Defs
pub mod Walk
pub mod Heads
pub mod Writes
