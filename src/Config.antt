-- ===== src/Config.antt =====
-- src/config: names, versioned membership records, and the mesh state file.
pub mod Error
pub mod Name
pub mod RepoId
pub mod Membership
pub mod Machine
pub mod Claims
pub mod State
