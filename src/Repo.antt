-- ===== src/Repo.antt =====
-- src/repo: the repos of Jujutsu that are replicated.
pub mod Codec
pub mod Sets
pub mod Store
pub mod Transfer
