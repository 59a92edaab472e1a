-- ===== src/Tests.antt =====
-- The theorems at concrete inputs.
mod Data
mod Mesh
mod Changes
mod Values
mod Hub
mod Codec
mod Wire
mod Transfer
mod Exchange
mod Objects
mod Peers
mod Fetched
