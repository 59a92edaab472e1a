-- ===== src/Config/Claims.antt =====
-- src/config/state/claims.rs: which machine keeps which workspace of a repo fresh.
mod Defs
mod Laws
pub use Defs.{
  WorkspaceClaims, RepoClaims, no_claims, count, count_repos, max_machine_workspaces,
  max_mesh_workspaces, max_other_workspaces, claims_rank, claims_register, claims_eq, names_of,
  workspace_name, updated, all_values, names_valid, unchanged,
}
unfoldable pub use Defs.{is_valid, set_claims, observe_claims, claims_outranks}
pub use Laws.*
