-- ===== src/Config/State/WellFormed.antt =====
-- The well-formedness of the mesh state.
use jj_mesh.Prelude.{
  is_ok, AllEntries, BTreeMap, get, contains_key, insert, Sorted, length-insert, Ord, nat_ord,
  bool_ord, pair_ord, list_ord, option_ord, reverse_ord, ltb, leb, is_some, length, ℕ, ◌≤◌, ◌<◌,
  ◌≡◌, Bool, true, false, not, ◌&&◌, ◌||◌, arith,
}
use jj_mesh.Config.Error.{Kind}
use jj_mesh.Config.Name.{Text, validate_name}
use jj_mesh.Config.RepoId.{Repo}
use jj_mesh.Config.Membership.Register.{max_other_peers, max_mesh_repos, max_record_version}
use jj_mesh.Config.Membership.Peers.{peer_register, Peer}
use jj_mesh.Config.Membership.Repos.{repo_register, MeshRepo}
use jj_mesh.Config.Claims.{WorkspaceClaims, max_other_workspaces, claims_register, is_valid}
use jj_mesh.Config.State.Defs.{id_of_repo, MeshState}
use jj_mesh.Config.State.Ops.{is_alive}
use jj_mesh.Config.State.Merge.{total_claims}
use jj_mesh.Config.State.Loops.{valid_repo, valid_peer}

-- A claims record that may be held for some machine, and one for `endpoint`
abbrev pub claim_ok : WorkspaceClaims → Bool
claim_ok c = not (leb max_record_version c.version) && is_valid c

abbrev pub valid_claim : {E : Type 0} ⦃oe : Ord E⦄ → BTreeMap E Peer → E → WorkspaceClaims → Bool
valid_claim peers endpoint c = is_alive peers endpoint && claim_ok c

-- A repo registered here is in use in the mesh.
abbrev pub IsRegistered : BTreeMap Text Repo → BTreeMap Text MeshRepo → Type 0
IsRegistered repos mesh =
    (name : Text) → contains_key name repos ≡ true → is_some (id_of_repo (get name mesh)) ≡ true

pub below_ceiling : (v : ℕ) → v < max_record_version → leb max_record_version v ≡ false
below_ceiling v h = ground arith

pub length-insert_capped :
    {K V : Type 0} ⦃ok : Ord K⦄ (limit : ℕ) (k : K) (v : V) (m : BTreeMap K V)
    → Sorted m
    → length m ≤ limit
    → (contains_key k m || ltb (length m) limit) ≡ true
    → length (insert k v m) ≤ limit
length-insert_capped limit k v m s h room = ground (arith, length-insert k v m s)

module _ {E : Type 0} ⦃oe : Ord E⦄ where
  -- `local` is this machine's own endpoint.
  pub record IsWellFormed (local : E) (s : MeshState E) : Type 0 where
    pub name_valid : is_ok (validate_name Kind.machine s.machine.name) ≡ true
    pub machine_version : s.machine.version < max_record_version
    pub peers_sorted : Sorted s.peers
    pub peers_valid : AllEntries (valid_peer local) s.peers
    pub peers_cap : length s.peers ≤ max_other_peers
    pub repos_sorted : Sorted s.repos
    pub registered : IsRegistered s.repos s.mesh_repos
    pub mesh_sorted : Sorted s.mesh_repos
    pub mesh_valid : AllEntries valid_repo s.mesh_repos
    pub mesh_cap : length s.mesh_repos ≤ max_mesh_repos
    pub claims_version : s.claims.version < max_record_version
    pub claims_valid : is_valid s.claims ≡ true
    pub claims_sorted : Sorted s.claims.repos
    pub peer_claims_sorted : Sorted s.peer_claims
    pub peer_claims_valid : AllEntries (valid_claim s.peers) s.peer_claims
    pub peer_claims_cap : total_claims s.peer_claims ≤ max_other_workspaces
