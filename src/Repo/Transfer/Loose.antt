-- ===== src/Repo/Transfer/Loose.antt =====
-- The Git phase of a fetch, in the loose format.
pub mod Defs
pub mod Verified
pub mod Fuel
