-- ===== src/Config/Membership.antt =====
-- src/config/state/membership.rs: the versioned registers that membership gossip replicates.
pub mod Register
pub mod Peers
pub mod Repos
pub mod Versions
pub mod Ranking
pub mod Adoption
pub mod Convergence
