-- ===== src/Config/State/Ops.antt =====
-- The local mutations of `MeshState`. An error returns no state: the caller works on a
-- copy (src/daemon/store.rs) and drops it.
use jj_mesh.Prelude.{
  ensure, Result, ok, err, BTreeMap, retain, get, contains_key, insert, remove, Ord, nat_ord,
  bool_ord, pair_ord, list_ord, option_ord, reverse_ord, ltb, if◌then◌else◌, is_some, length, Bool,
  true, false, not, ◌||◌, Option, none, some, List, [], ◌∷◌, ◌>>=◌, ◌>>◌,
}
use jj_mesh.Config.Error.{
  Kind, Error, already_paired, repo_name_exists, path_already_added, repo_id_registered,
  name_taken_in_mesh, mesh_has_max_peers, mesh_has_max_repos, ambiguous_peer, no_such_peer,
  endpoint_not_paired, no_such_repo, repo_already_removed, repo_not_registered,
}
use jj_mesh.Config.Name.{Text, validate_name}
use jj_mesh.Config.RepoId.{RepoId, Repo}
use jj_mesh.Config.Membership.Register.{max_other_peers, max_mesh_repos, bumped_version}
use jj_mesh.Config.Membership.Peers.{peer_register, PeerStatus, Peer}
use jj_mesh.Config.Membership.Repos.{repo_id, repo_register, MeshRepoStatus, MeshRepo}
use jj_mesh.Config.Machine.{text_eq, rename}
use jj_mesh.Config.Claims.{WorkspaceClaims, claims_register, set_claims}
use jj_mesh.Config.State.Defs.{
  name_of_peer, find_path, paired_name, alive_peers, repo_name, mesh_repo_id, MeshState,
}

-- The claims stay as they are if they cannot be released.
abbrev pub released : WorkspaceClaims → RepoId → WorkspaceClaims
released c id = elim (set_claims c id []) [ ok c' ↦ c' | err _ ↦ c ]

-- The `match` at the top of `remove_repo`
abbrev pub removable : Option MeshRepo → Bool → Result Error (Unit {0})
removable none false = err no_such_repo
removable (some mesh) false = ensure (is_some (repo_id mesh)) repo_already_removed
removable _ true = ok tt

module _ {E : Type 0} ⦃oe : Ord E⦄ where
  -- `MeshState::set_claims`
  unfoldable pub set_repo_claims : MeshState E → RepoId → List Text → Result Error (MeshState E)
  set_repo_claims s id names =
      if is_some (repo_name s id)
      then (do claims' ← set_claims s.claims id names; ok (record s { claims = claims' }))
      else ok s

  unfoldable pub validate_new_peer : MeshState E → Text → E → Result Error (Unit {0})
  validate_new_peer s name endpoint = do
    validate_name Kind.peer name
    ensure (not (is_some (paired_name s endpoint))) already_paired

  -- `canonical` resolves a path, and gives it back where it does not resolve.
  unfoldable pub validate_new_repo :
      (Text → Text) → MeshState E → Text → Text → Result Error (Unit {0})
  validate_new_repo canonical s name path = do
    validate_name Kind.repo name
    ensure (not (contains_key name s.repos)) repo_name_exists
    ensure (not (is_some (find_path (canonical path) s.repos))) path_already_added

  unfoldable pub ensure_mesh_id : MeshState E → Text → RepoId → Result Error (Unit {0})
  ensure_mesh_id s name id = elim (mesh_repo_id s name) [
    | none ↦ ok tt
    | some mesh_id ↦ ensure (text_eq mesh_id id) name_taken_in_mesh
  ]

  unfoldable pub add_peer : MeshState E → E → Text → Result Error (MeshState E)
  unfolding validate_new_peer
  add_peer s endpoint name = do
    validate_new_peer s name endpoint
    ensure (contains_key endpoint s.peers || ltb (length s.peers) max_other_peers)
        mesh_has_max_peers
    version ← bumped_version s.peers endpoint
    ok (record s {
      peers =
          insert endpoint (record { version = version; status = PeerStatus.alive name }) s.peers;
    })

  unfoldable pub rename_machine : MeshState E → Text → Result Error (MeshState E)
  rename_machine s name = do machine' ← rename s.machine name; ok (record s { machine = machine' })

  -- Is the endpoint alive in `peers`?
  abbrev pub is_alive : BTreeMap E Peer → E → Bool
  is_alive peers endpoint = is_some (name_of_peer (get endpoint peers))

  unfoldable pub prune_claims : MeshState E → MeshState E
  prune_claims s = record s {
    peer_claims = retain (λ endpoint c. is_alive s.peers endpoint) s.peer_claims;
  }

  -- The alive peers of this name, and then the endpoint id that the selector spells.
  abbrev pub named : Text → List (E × Text) → List E
  named selector [] = []
  named selector (e ∷ es) =
      if text_eq e.1 selector then e.0 ∷ named selector es else named selector es

  unfoldable pub by_endpoint : MeshState E → Option E → Result Error E
  by_endpoint s none = err no_such_peer
  by_endpoint s (some endpoint) = do
    ensure (is_some (paired_name s endpoint)) endpoint_not_paired
    ok endpoint

  unfoldable pub resolve : MeshState E → Option E → List E → Result Error E
  unfolding by_endpoint
  resolve s parsed [] = by_endpoint s parsed
  resolve s parsed (endpoint ∷ []) = ok endpoint
  resolve s parsed (_ ∷ _ ∷ _) = err ambiguous_peer

  -- `parse` reads an endpoint id from its text.
  unfoldable pub resolve_peer : (Text → Option E) → MeshState E → Text → Result Error E
  unfolding resolve
  resolve_peer parse s selector = resolve s (parse selector) (named selector (alive_peers s.peers))

  unfoldable pub remove_peer :
      (Text → Option E) → MeshState E → Text → Result Error (MeshState E × E)
  remove_peer parse s selector = do
    endpoint ← resolve_peer parse s selector
    version ← bumped_version s.peers endpoint
    ok (
      prune_claims (record s {
        peers = insert endpoint (record { version = version; status = PeerStatus.removed }) s.peers;
      }),
      endpoint,
    )

  unfoldable pub add_repo : (Text → Text) → MeshState E → Text → Repo → Result Error (MeshState E)
  unfolding validate_new_repo ensure_mesh_id
  add_repo canonical s name r = do
    let r' = record r { path = canonical r.path }
    validate_new_repo canonical s name r'.path
    ensure_mesh_id s name r'.id
    ensure (not (is_some (repo_name s r'.id))) repo_id_registered
    ensure (contains_key name s.mesh_repos || ltb (length s.mesh_repos) max_mesh_repos)
        mesh_has_max_repos
    version ← bumped_version s.mesh_repos name
    ok (record s {
      mesh_repos =
          insert name (record { version = version; status = MeshRepoStatus.present r'.id })
            s.mesh_repos;
      repos = insert name r' s.repos;
    })

  unfoldable pub unregister_repo : MeshState E → Text → MeshState E × Option Repo
  unregister_repo s name = elim (get name s.repos) [
    | none ↦ (s, none)
    | some r ↦ (record s { repos = remove name s.repos; claims = released s.claims r.id }, some r)
  ]

  unfoldable pub remove_repo : MeshState E → Text → Result Error (MeshState E × Bool)
  remove_repo s name = do
    removable (get name s.mesh_repos) (contains_key name s.repos)
    version ← bumped_version s.mesh_repos name
    let (s', r) =
        unregister_repo
          (record s {
            mesh_repos =
                insert name (record { version = version; status = MeshRepoStatus.removed })
                  s.mesh_repos;
          })
          name
    ok (s', is_some r)

  unfoldable pub forget_repo : MeshState E → Text → Result Error (MeshState E × Repo)
  forget_repo s name =
      let (s', found) = unregister_repo s name in
      elim found [ none ↦ err repo_not_registered | some r ↦ ok (s', r) ]
