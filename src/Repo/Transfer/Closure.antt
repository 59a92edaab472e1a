-- ===== src/Repo/Transfer/Closure.antt =====
-- `walk_git_closure` and `walk_tree` of src/repo/transfer/serve.rs: the Git objects that a fetcher lacks.
pub mod Defs
pub mod Tree
pub mod Walk
pub mod Emits
pub mod Size
pub mod Laws
