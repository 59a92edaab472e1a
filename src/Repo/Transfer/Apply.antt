-- ===== src/Repo/Transfer/Apply.antt =====
-- src/repo/transfer/apply.rs: a batch is staged, and then its heads are published. The import of the commits
-- and the mirror of the references work on the Git repository; what they return is an argument.
pub mod Defs
pub mod Supersede
pub mod Closed
pub mod Staging
pub mod Stage
pub mod Publish
pub mod Stored
pub mod Safe
