-- ===== src/Config/Membership/Repos.antt =====
-- `MeshRepo`, `MeshRepoStatus` and their ranking.
use jj_mesh.Prelude.{
  nat_ord, bool_ord, pair_ord, list_ord, option_ord, reverse_ord, ℕ, Bool, Option, none, some,
  Reverse, reverse, gtb, is_some, not,
}
use jj_mesh.Config.RepoId.{RepoId}
use jj_mesh.Config.Membership.Register.{Register}

pub data MeshRepoStatus : Type 0 where
  present : RepoId → MeshRepoStatus
  removed : MeshRepoStatus

pub record MeshRepo : Type 0 where
  pub version : ℕ
  pub status : MeshRepoStatus

abbrev pub status_id : MeshRepoStatus → Option RepoId
status_id (present id) = some id
status_id removed = none

-- `MeshRepo::id`
abbrev pub repo_id : MeshRepo → Option RepoId
repo_id r = status_id r.status

abbrev pub repo_rank : MeshRepo → ℕ × (Bool × Reverse (Option RepoId))
repo_rank r = (r.version, (not (is_some (repo_id r)), reverse (repo_id r)))

unfoldable pub repo_outranks : MeshRepo → MeshRepo → Bool
repo_outranks r s = gtb (repo_rank r) (repo_rank s)

instance abbrev pub repo_register : Register MeshRepo
repo_register = record { version = λ r. r.version; outranks = repo_outranks }
