-- ===== src/Config/State.antt =====
-- src/config/state/mod.rs: the machine's copy of the mesh state (`mesh.json`) and its mutations.
-- Endpoint ids are an ordered type `E`, as in the crate that defines them; a path is a text, and its
-- canonical form is a function that the operations take.
pub mod Defs
pub mod Ops
pub mod Merge
pub mod Loops
pub mod Gossip
pub mod WellFormed
pub mod Peers
pub mod Removal
pub mod Tombstones
pub mod Repos
pub mod RepoOps
pub mod RepoRemoval
pub mod ClaimLimits
pub mod MergeKeeps
pub mod MergeWellFormed
pub mod Reachable
pub mod Spread
pub mod Equality
