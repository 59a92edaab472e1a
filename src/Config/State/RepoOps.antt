-- ===== src/Config/State/RepoOps.antt =====
-- `add_repo`, on success.
use jj_mesh.Prelude.{
  is_ok, ok, AllEntries, insert-AllEntries, BTreeMap, get, contains_key, insert, Sorted, get-insert,
  insert-Sorted, eqb_refl, Ord, nat_ord, bool_ord, pair_ord, list_ord, option_ord, reverse_ord, ltb,
  is_some, length, ℕ, ◌≤◌, ◌<◌, ◌≡◌, refl, ◌≢◌, true, false, ◌||◌, none, some, arith,
}
use jj_mesh.Config.Error.{Kind}
use jj_mesh.Config.Name.{Text, validate_name}
use jj_mesh.Config.RepoId.{RepoId, Repo}
use jj_mesh.Config.Membership.Register.{max_mesh_repos, max_record_version, bumped_version}
use jj_mesh.Config.Membership.Versions.{bumped_version-lt}
use jj_mesh.Config.Membership.Peers.{peer_register}
use jj_mesh.Config.Membership.Repos.{repo_id, repo_register, MeshRepoStatus, MeshRepo}
use jj_mesh.Config.Machine.{text_eq_sound}
use jj_mesh.Config.Claims.{WorkspaceClaims, claims_register}
use jj_mesh.Config.State.Defs.{find_path, repo_name, mesh_repo_id, MeshState}
use jj_mesh.Config.State.Ops.{ensure_mesh_id, add_repo}
use jj_mesh.Config.State.Loops.{valid_repo}
use jj_mesh.Config.State.WellFormed.{IsRegistered, length-insert_capped, IsWellFormed}
use jj_mesh.Config.State.Repos.{KeepsRepos}

IsRegistered-insert :
    (name : Text) (r : Repo) (repos : BTreeMap Text Repo) (m : MeshRepo)
    (mesh : BTreeMap Text MeshRepo)
    → IsRegistered repos mesh
    → is_some (repo_id m) ≡ true
    → IsRegistered (insert name r repos) (insert name m mesh)
IsRegistered-insert name r repos m mesh reg live other here =
    ground (arith, get-insert other name r repos, get-insert other name m mesh, reg other)

new_repo_valid :
    (name : Text) (v : ℕ) (st : MeshRepoStatus)
    → is_ok (validate_name Kind.repo name) ≡ true
    → v < max_record_version
    → valid_repo name (record { version = v; status = st }) ≡ true
new_repo_valid name v st valid h = ground arith

module _ {E : Type 0} ⦃oe : Ord E⦄ where
  abbrev pub with_repos :
      MeshState E → BTreeMap Text Repo → BTreeMap Text MeshRepo → WorkspaceClaims → MeshState E
  with_repos s repos mesh claims' = record s { repos = repos; mesh_repos = mesh; claims = claims' }

  pub with_repos-IsWellFormed :
      (local : E) (s : MeshState E) (repos : BTreeMap Text Repo) (mesh : BTreeMap Text MeshRepo)
      (claims' : WorkspaceClaims)
      → IsWellFormed local s
      → KeepsRepos (with_repos s repos mesh claims')
      → Sorted mesh
      → AllEntries valid_repo mesh
      → length mesh ≤ max_mesh_repos
      → IsWellFormed local (with_repos s repos mesh claims')
  with_repos-IsWellFormed local s repos mesh claims' w k ms mv mc = record {
    name_valid = w.name_valid;
    machine_version = w.machine_version;
    peers_sorted = w.peers_sorted;
    peers_valid = w.peers_valid;
    peers_cap = w.peers_cap;
    repos_sorted = k.repos_sorted;
    registered = k.registered;
    mesh_sorted = ms;
    mesh_valid = mv;
    mesh_cap = mc;
    claims_version = k.claims_version;
    claims_valid = k.claims_valid;
    claims_sorted = k.claims_sorted;
    peer_claims_sorted = w.peer_claims_sorted;
    peer_claims_valid = w.peer_claims_valid;
    peer_claims_cap = w.peer_claims_cap;
  }

  pub add_repo_state :
      (canonical : Text → Text) (s : MeshState E) (name : Text) (r : Repo) {t : MeshState E}
      → add_repo canonical s name r ≡ ok t
      → (v : ℕ) × (bumped_version s.mesh_repos name ≡ ok v)
        × (is_ok (validate_name Kind.repo name) ≡ true)
        × (contains_key name s.repos ≡ false)
        × (find_path (canonical (canonical r.path)) s.repos ≡ none)
        × (repo_name s r.id ≡ none)
        × ((contains_key name s.mesh_repos || ltb (length s.mesh_repos) max_mesh_repos) ≡ true)
        × (is_ok (ensure_mesh_id s name r.id) ≡ true)
        × (t
            ≡ with_repos s
                (insert name (record r { path = canonical r.path }) s.repos)
                (insert name
                  (record { version = v; status = MeshRepoStatus.present r.id })
                  s.mesh_repos)
                s.claims)
  unfolding add_repo
  add_repo_state canonical s name r h = ground arith

  -- Adding a repo keeps the state well-formed.
  pub add_repo-IsWellFormed :
      (canonical : Text → Text) (local : E) (s : MeshState E) (name : Text) (r : Repo)
      {t : MeshState E}
      → IsWellFormed local s
      → add_repo canonical s name r ≡ ok t
      → IsWellFormed local t
  add_repo-IsWellFormed canonical local s name r w h =
      let (v, bumped, valid, fresh, path, id, room, mesh, e) =
        add_repo_state canonical s name r h in
      let m : MeshRepo = record { version = v; status = MeshRepoStatus.present r.id } in
      let r' : Repo = record r { path = canonical r.path } in
      rw e (
        with_repos-IsWellFormed local s (insert name r' s.repos) (insert name m s.mesh_repos)
          s.claims w
          (record {
            repos_sorted = insert-Sorted name r' s.repos w.repos_sorted;
            registered = IsRegistered-insert name r' s.repos m s.mesh_repos w.registered refl;
            claims_version = w.claims_version;
            claims_valid = w.claims_valid;
            claims_sorted = w.claims_sorted;
          })
          (insert-Sorted name m s.mesh_repos w.mesh_sorted)
          (insert-AllEntries valid_repo name m s.mesh_repos
            (new_repo_valid name v m.status valid (bumped_version-lt s.mesh_repos name v bumped))
            w.mesh_valid)
          (length-insert_capped max_mesh_repos name m s.mesh_repos w.mesh_sorted w.mesh_cap room))

  -- An added repo is registered here under its canonical path and in use in the mesh under its id;
  -- the mesh did not know the name under another id, and no other name changed.
  add_repo_lem :
      (canonical : Text → Text) (s : MeshState E) (name : Text) (r : Repo) {t : MeshState E}
      → add_repo canonical s name r ≡ ok t
      → (get name t.repos ≡ some (record r { path = canonical r.path }))
        × (mesh_repo_id t name ≡ some r.id)
        × ((id : RepoId) → mesh_repo_id s name ≡ some id → id ≡ r.id)
        × ((other : Text)
            → other ≢ name
            → (get other t.repos ≡ get other s.repos)
              × (get other t.mesh_repos ≡ get other s.mesh_repos))
        × (t.claims ≡ s.claims)
        × (t.peers ≡ s.peers)
  unfolding ensure_mesh_id
  add_repo_lem canonical s name r h =
      let (v, bumped, valid, fresh, path, id, room, mesh, e) =
        add_repo_state canonical s name r h in
      let m : MeshRepo = record { version = v; status = MeshRepoStatus.present r.id } in
      let r' : Repo = record r { path = canonical r.path } in
      let here = eqb_refl ⦃o = list_ord⦄ name in
      rw e (
        ground (arith, get-insert name name r' s.repos),
        ground (arith, get-insert name name m s.mesh_repos),
        λ old known. ground (arith, text_eq_sound old r.id),
        λ other ne. (
          ground (arith, get-insert other name r' s.repos, text_eq_sound name other),
          ground (arith, get-insert other name m s.mesh_repos, text_eq_sound name other),
        ),
        refl,
        refl,
      )
