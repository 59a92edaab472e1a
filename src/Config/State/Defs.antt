-- ===== src/Config/State/Defs.antt =====
-- `MeshState`, `Membership` and the queries.
use jj_mesh.Prelude.{
  BTreeMap, keys, get, contains_key, insert, Ord, nat_ord, bool_ord, pair_ord, list_ord, option_ord,
  reverse_ord, if◌then◌else◌, is_some, length, keep, ℕ, ◌+◌, ◌-◌, ◌%◌, Bool, not, Option, none,
  some, List, [], ◌∷◌, ◌++◌, foldl,
}
use jj_mesh.Config.Name.{Text}
use jj_mesh.Config.RepoId.{RepoId, Repo}
use jj_mesh.Config.Membership.Register.{u64_mod}
use jj_mesh.Config.Membership.Peers.{peer_name, peer_register, Peer}
use jj_mesh.Config.Membership.Repos.{repo_id, repo_register, MeshRepo}
use jj_mesh.Config.Machine.{Machine, text_eq, own_record, default_machine}
use jj_mesh.Config.Claims.{
  WorkspaceClaims, RepoClaims, no_claims, count, max_machine_workspaces, claims_register, names_of,
}

pub record MeshState (E : Type 0) : Type 0 where
  pub machine : Machine
  pub peers : BTreeMap E Peer
  pub repos : BTreeMap Text Repo
  pub mesh_repos : BTreeMap Text MeshRepo
  pub claims : WorkspaceClaims
  pub peer_claims : BTreeMap E WorkspaceClaims

-- The fields are those of the source's `Membership`: `repos` is the mesh-wide list.
pub record Membership (E : Type 0) : Type 0 where
  pub peers : BTreeMap E Peer
  pub repos : BTreeMap Text MeshRepo
  pub claims : BTreeMap E WorkspaceClaims

-- `MeshState::default`, on a machine with this host name
abbrev pub default_state : {E : Type 0} → Text → MeshState E
default_state hostname = record {
  machine = default_machine hostname;
  peers = [];
  repos = [];
  mesh_repos = [];
  claims = no_claims;
  peer_claims = [];
}

-- `map.get(key).and_then(Peer::name)`
abbrev pub name_of_peer : Option Peer → Option Text
name_of_peer none = none
name_of_peer (some p) = peer_name p

abbrev pub id_of_repo : Option MeshRepo → Option RepoId
id_of_repo none = none
id_of_repo (some r) = repo_id r

-- `iter().find(|(_, repo)| &repo.id == id)`
unfoldable pub find_id : RepoId → BTreeMap Text Repo → Option Text
find_id id [] = none
find_id id ((name, r) ∷ m) = if text_eq r.id id then some name else find_id id m

-- `iter().find(|(_, r)| r.path == path)`
unfoldable pub find_path : Text → BTreeMap Text Repo → Option Text
find_path path [] = none
find_path path ((name, r) ∷ m) = if text_eq r.path path then some name else find_path path m

-- `others.entry(name).or_default().push(peer)`
abbrev push_claim : Text → BTreeMap Text (List Text) → Text → BTreeMap Text (List Text)
push_claim peer others name = insert name (names_of (get name others) ++ peer ∷ []) others

-- `a - b` on `usize`, in the release profile, which wraps.
abbrev pub sub_usize : ℕ → ℕ → ℕ
sub_usize a b = (a + u64_mod - b) % u64_mod

abbrev live_entry : Text × MeshRepo → Bool
live_entry e = is_some (repo_id e.1)

module _ {E : Type 0} ⦃oe : Ord E⦄ where
  -- `MeshState::peer_name`
  abbrev pub paired_name : MeshState E → E → Option Text
  paired_name s endpoint = name_of_peer (get endpoint s.peers)

  unfoldable pub alive_peers : BTreeMap E Peer → List (E × Text)
  alive_peers [] = []
  alive_peers ((endpoint, p) ∷ m) = elim (peer_name p) [
    | none ↦ alive_peers m
    | some name ↦ (endpoint, name) ∷ alive_peers m
  ]

  abbrev pub repo_name : MeshState E → RepoId → Option Text
  repo_name s id = find_id id s.repos

  abbrev pub mesh_repo_id : MeshState E → Text → Option RepoId
  mesh_repo_id s name = id_of_repo (get name s.mesh_repos)

  unfoldable pub mesh_repo_names : MeshState E → List Text
  mesh_repo_names s = keys (keep live_entry s.mesh_repos)

  unfoldable pub clonable_repo_names : MeshState E → List Text
  unfolding mesh_repo_names
  clonable_repo_names s = keep (λ name. not (contains_key name s.repos)) (mesh_repo_names s)

  -- The loop of `repo_claims` over the other machines' claims
  others_of :
      MeshState E
      → RepoId
      → BTreeMap E WorkspaceClaims
      → BTreeMap Text (List Text)
      → BTreeMap Text (List Text)
  others_of s id [] others = others
  others_of s id ((endpoint, c) ∷ m) others = others_of s id m (elim (paired_name s endpoint) [
    | none ↦ others
    | some peer ↦ foldl (push_claim peer) others (names_of (get id c.repos))
  ])

  unfoldable pub repo_claims : MeshState E → RepoId → RepoClaims
  unfolding others_of
  repo_claims s id =
      let ours = names_of (get id s.claims.repos) in
      record {
        ours = ours;
        others = others_of s id s.peer_claims [];
        limit = sub_usize max_machine_workspaces (sub_usize (count s.claims) (length ours));
      }

  -- `MeshState::membership`
  unfoldable pub membership : MeshState E → E → Membership E
  membership s local = record {
    peers = insert local (own_record s.machine) s.peers;
    repos = s.mesh_repos;
    claims = insert local s.claims s.peer_claims;
  }
