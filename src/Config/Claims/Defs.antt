-- ===== src/Config/Claims/Defs.antt =====
-- `WorkspaceClaims` and its operations.
use jj_mesh.Prelude.{
  ensure, is_ok, Result, ok, total, BTreeMap, get, insert, remove, eqb, gtb, nat_ord, bool_ord,
  pair_ord, list_ord, option_ord, reverse_ord, Reverse, reverse, leb, if◌then◌else◌, length,
  is_empty, all, ℕ, ◌-◌, min, max, Bool, true, not, ◌&&◌, Option, none, some, List, [], ◌∷◌, ◌>>=◌,
  ◌>>◌,
}
use jj_mesh.Config.Error.{Kind, Error, invalid_claims}
use jj_mesh.Config.Name.{Text, validate_name}
use jj_mesh.Config.RepoId.{RepoId}
use jj_mesh.Config.Membership.Register.{max_record_version, add_u64, next_version, Register}
use jj_mesh.Config.Membership.Peers.{peer_register}
use jj_mesh.Config.Membership.Repos.{repo_register}

abbrev pub max_machine_workspaces : ℕ
max_machine_workspaces = 64

abbrev pub max_mesh_workspaces : ℕ
max_mesh_workspaces = 1024

abbrev pub max_other_workspaces : ℕ
max_other_workspaces = 960

-- A `BTreeSet<String>` is its elements in order.
pub record WorkspaceClaims : Type 0 where
  pub version : ℕ
  pub repos : BTreeMap RepoId (List Text)

abbrev pub no_claims : WorkspaceClaims
no_claims = record { version = 0; repos = [] }

pub record RepoClaims : Type 0 where
  pub ours : List Text
  pub others : BTreeMap Text (List Text)
  pub limit : ℕ

-- `repos.values().map(BTreeSet::len).sum()`
abbrev pub count_repos : BTreeMap RepoId (List Text) → ℕ
count_repos = total length

-- `WorkspaceClaims::count`
abbrev pub count : WorkspaceClaims → ℕ
count c = count_repos c.repos

abbrev pub workspace_name : Text → Bool
workspace_name name = is_ok (validate_name Kind.workspace name)

abbrev pub names_valid : List Text → Bool
names_valid names = not (is_empty names) && all workspace_name names

abbrev pub all_values : (List Text → Bool) → BTreeMap RepoId (List Text) → Bool
all_values p [] = true
all_values p (e ∷ m) = p e.1 && all_values p m

unfoldable pub is_valid : WorkspaceClaims → Bool
is_valid c = leb (count c) max_machine_workspaces && all_values names_valid c.repos

abbrev pub names_eq : List Text → List Text → Bool
names_eq a b = eqb ⦃o = list_ord⦄ a b

-- `map_or(names.is_empty(), |held| *held == names)`
abbrev pub unchanged : Option (List Text) → List Text → Bool
unchanged none names = is_empty names
unchanged (some held) names = names_eq held names

abbrev pub updated : BTreeMap RepoId (List Text) → RepoId → List Text → BTreeMap RepoId (List Text)
updated repos repo names = if is_empty names then remove repo repos else insert repo names repos

-- `WorkspaceClaims::set`; on an error the claims stay as they were.
unfoldable pub set_claims : WorkspaceClaims → RepoId → List Text → Result Error WorkspaceClaims
set_claims c repo names = if unchanged (get repo c.repos) names then ok c else do
  ensure (is_valid (record c { repos = updated c.repos repo names })) invalid_claims
  version ← next_version c.version
  ok (record { version = version; repos = updated c.repos repo names })

abbrev pub claims_eq : BTreeMap RepoId (List Text) → BTreeMap RepoId (List Text) → Bool
claims_eq a b = eqb ⦃o = list_ord⦄ a b

-- `WorkspaceClaims::observe`
unfoldable pub observe_claims : WorkspaceClaims → WorkspaceClaims → WorkspaceClaims
observe_claims c copy =
    let outranking =
      if claims_eq copy.repos c.repos then copy.version else add_u64 copy.version 1 in
    record c { version = min (max c.version outranking) (max_record_version - 1) }

abbrev pub claims_rank : WorkspaceClaims → ℕ × Reverse (BTreeMap RepoId (List Text))
claims_rank c = (c.version, reverse c.repos)

unfoldable pub claims_outranks : WorkspaceClaims → WorkspaceClaims → Bool
claims_outranks c d = gtb (claims_rank c) (claims_rank d)

instance abbrev pub claims_register : Register WorkspaceClaims
claims_register = record { version = λ c. c.version; outranks = claims_outranks }

-- `cloned().unwrap_or_default()`
abbrev pub names_of : Option (List Text) → List Text
names_of none = []
names_of (some names) = names
