-- ===== src/Config/State/RepoRemoval.antt =====
-- The lemmas on `remove_repo` and `forget_repo`.
use mathlib.Core.Path.{subst}
use jj_mesh.Prelude.{
  is_ok, >>=-eq-ok, ok, err, AllEntries, insert-AllEntries, get-AllEntries, BTreeMap, get,
  contains_key, insert, Sorted, get-insert, get-remove, insert-Sorted, eqb_refl, Ord, nat_ord,
  bool_ord, pair_ord, list_ord, option_ord, reverse_ord, ltb, is_some, Option-cases, length, ℕ, ◌+◌,
  ◌≤◌, ◌<◌, ◌≡◌, refl, sym, ◌≢◌, ◌⊎◌, inl, inr, Bool, true, false, ◌||◌, none, some, [], arith,
}
use jj_mesh.Config.Error.{Kind, repo_not_registered}
use jj_mesh.Config.Name.{Text, validate_name}
use jj_mesh.Config.RepoId.{Repo}
use jj_mesh.Config.Membership.Register.{max_mesh_repos, max_record_version, bumped_version}
use jj_mesh.Config.Membership.Versions.{bumped_version-lt, bumped_version-newer}
use jj_mesh.Config.Membership.Peers.{peer_register}
use jj_mesh.Config.Membership.Repos.{repo_outranks, repo_register, MeshRepoStatus, MeshRepo}
use jj_mesh.Config.Membership.Ranking.{repo-IsRanked}
use jj_mesh.Config.Machine.{text_eq_sound}
use jj_mesh.Config.Claims.{claims_register, names_of}
use jj_mesh.Config.State.Defs.{mesh_repo_id, MeshState}
use jj_mesh.Config.State.Ops.{removable, unregister_repo, remove_repo, forget_repo}
use jj_mesh.Config.State.Loops.{valid_repo}
use jj_mesh.Config.State.WellFormed.{IsRegistered, length-insert_capped, IsWellFormed}
use jj_mesh.Config.State.Repos.{released_empty, unregister-KeepsRepos, KeepsRepos}
use jj_mesh.Config.State.RepoOps.{with_repos, with_repos-IsWellFormed}

abbrev pub retired : ℕ → MeshRepo
retired v = record { version = v; status = MeshRepoStatus.removed }

get-insert_ne :
    (name other : Text) (m : MeshRepo) (mesh : BTreeMap Text MeshRepo)
    → other ≢ name
    → get other (insert name m mesh) ≡ get other mesh
get-insert_ne name other m mesh ne =
    ground (arith, get-insert other name m mesh, text_eq_sound name other)

module _ {E : Type 0} ⦃oe : Ord E⦄ where
  -- What unregistering leaves alone, and what it returns
  pub unregister-same :
      (s : MeshState E) (name : Text)
      → ((unregister_repo s name).0.mesh_repos ≡ s.mesh_repos)
        × ((unregister_repo s name).0.peers ≡ s.peers)
        × ((unregister_repo s name).0.machine ≡ s.machine)
        × ((unregister_repo s name).0.peer_claims ≡ s.peer_claims)
        × ((unregister_repo s name).1 ≡ get name s.repos)
        × (get name (unregister_repo s name).0.repos ≡ none)
  unfolding unregister_repo
  unregister-same s name =
      ground (arith, get-remove name name s.repos, eqb_refl ⦃o = list_ord⦄ name)

  unregister-others :
      (s : MeshState E) (name other : Text)
      → other ≢ name
      → get other (unregister_repo s name).0.repos ≡ get other s.repos
  unfolding unregister_repo
  unregister-others s name other ne =
      ground (arith, get-remove other name s.repos, text_eq_sound name other, ne)

  unregister_shape :
      (s : MeshState E) (name : Text)
      → (unregister_repo s name).0
        ≡ with_repos s
            (unregister_repo s name).0.repos
            s.mesh_repos
            (unregister_repo s name).0.claims
  unfolding unregister_repo
  unregister_shape s name = ground arith

  pub unregister-IsWellFormed :
      (local : E) (s : MeshState E) (name : Text) (mesh : BTreeMap Text MeshRepo)
      → IsWellFormed local s
      → ((other : Text) → other ≢ name → get other mesh ≡ get other s.mesh_repos)
      → Sorted mesh
      → AllEntries valid_repo mesh
      → length mesh ≤ max_mesh_repos
      → IsWellFormed local (unregister_repo (record s { mesh_repos = mesh }) name).0
  unregister-IsWellFormed local s name mesh w same ms mv mc =
      let s' : MeshState E = record s { mesh_repos = mesh } in
      let t = (unregister_repo s' name).0 in
      let keeps =
        unregister-KeepsRepos s' name s.mesh_repos w.registered same w.repos_sorted w.claims_version
          w.claims_valid w.claims_sorted in
      let rest = unregister-same s' name in
      let e : t ≡ with_repos s t.repos mesh t.claims = unregister_shape s' name in
      subst (IsWellFormed local) (sym e) (
        with_repos-IsWellFormed local s t.repos mesh t.claims w (subst KeepsRepos e keeps) ms mv mc)

  pub remove_repo_state :
      (s : MeshState E) (name : Text) {t : MeshState E} {here : Bool}
      → remove_repo s name ≡ ok (t, here)
      → (v : ℕ) × (bumped_version s.mesh_repos name ≡ ok v)
        × ((contains_key name s.repos || is_some (mesh_repo_id s name)) ≡ true)
        × (t
            ≡ (unregister_repo
                (record s { mesh_repos = insert name (retired v) s.mesh_repos })
                name).0)
        × (here ≡ contains_key name s.repos)
  unfolding remove_repo
  remove_repo_state s name {t} {here} h =
      let (u, allowed', rest) =
        >>=-eq-ok (removable (get name s.mesh_repos) (contains_key name s.repos)) _ h in
      let (v, bumped, done) = >>=-eq-ok (bumped_version s.mesh_repos name) _ rest in
      let s' : MeshState E = record s { mesh_repos = insert name (retired v) s.mesh_repos } in
      let found = (unregister-same s' name).4 in
      (v, bumped, ground arith, ground arith, ground (arith, found))

  -- Retiring a repo fails only when the mesh does not know the name, the name is retired already, or
  -- its record is next to the ceiling.
  remove_repo_fails :
      (s : MeshState E) (name : Text)
      → is_ok (remove_repo s name) ≡ false
      → (get name s.repos ≡ none) × (mesh_repo_id s name ≡ none)
        ⊎ (is_ok (bumped_version s.mesh_repos name) ≡ false)
  unfolding remove_repo
  remove_repo_fails s name h = ground arith

  -- After a repo is retired from a well-formed state the name is registered nowhere on this machine and is not
  -- in use in the mesh, where a tombstone is recorded that outranks the record held before, if there was one; the
  -- records of the other names, the other registered repos and the peers are as they were.
  pub remove_repo_lem :
      (local : E) (s : MeshState E) (name : Text) {t : MeshState E} {here : Bool}
      → IsWellFormed local s
      → remove_repo s name ≡ ok (t, here)
      → (get name t.repos ≡ none)
        × (mesh_repo_id t name ≡ none)
        × (here ≡ contains_key name s.repos)
        × ((other : Text)
            → other ≢ name
            → (get other t.mesh_repos ≡ get other s.mesh_repos)
              × (get other t.repos ≡ get other s.repos))
        × (t.peers ≡ s.peers)
        × ((new : MeshRepo) × (get name t.mesh_repos ≡ some new)
            × (new.status ≡ MeshRepoStatus.removed)
            × ((old : MeshRepo) → get name s.mesh_repos ≡ some old → repo_outranks new old ≡ true))
  remove_repo_lem local s name {t} {here} w h =
      let (v, bumped, allowed', e, was) = remove_repo_state s name h in
      let s' : MeshState E = record s { mesh_repos = insert name (retired v) s.mesh_repos } in
      let same = unregister-same s' name in
      let now = get-insert name name (retired v) s.mesh_repos in
      let self = eqb_refl ⦃o = list_ord⦄ name in
      rw e (
        same.5,
        rw same.0 (ground arith),
        was,
        λ other ne. (
          rw same.0 (get-insert_ne name other (retired v) s.mesh_repos ne),
          unregister-others s' name other ne,
        ),
        same.1,
        (
          retired v,
          rw same.0 (ground arith),
          refl,
          λ old held.
              let known = get-AllEntries valid_repo name old s.mesh_repos w.mesh_valid held in
              let newer = bumped_version-newer s.mesh_repos name v old held (ground arith) bumped in
              repo-IsRanked.versioned (retired v) old newer,
        ),
      )

  known_of_registered :
      (s : MeshState E) (name : Text)
      → IsRegistered s.repos s.mesh_repos
      → (contains_key name s.repos || is_some (mesh_repo_id s name)) ≡ true
      → (contains_key name s.mesh_repos || ltb (length s.mesh_repos) max_mesh_repos) ≡ true
  known_of_registered s name reg h = ground (arith, reg name)

  name_known_valid :
      (s : MeshState E) (name : Text)
      → IsRegistered s.repos s.mesh_repos
      → AllEntries valid_repo s.mesh_repos
      → (contains_key name s.repos || is_some (mesh_repo_id s name)) ≡ true
      → is_ok (validate_name Kind.repo name) ≡ true
  name_known_valid s name reg valid h = elim (Option-cases (get name s.mesh_repos)) [
    | inl absent ↦ ground (arith, reg name)
    | inr (m, held) ↦ ground (arith, get-AllEntries valid_repo name m s.mesh_repos valid held)
  ]

  -- Retiring a repo keeps the state well-formed.
  pub remove_repo-IsWellFormed :
      (local : E) (s : MeshState E) (name : Text) {t : MeshState E} {here : Bool}
      → IsWellFormed local s
      → remove_repo s name ≡ ok (t, here)
      → IsWellFormed local t
  remove_repo-IsWellFormed local s name {t} {here} w h =
      let (v, bumped, known, e, was) = remove_repo_state s name h in
      let mesh = insert name (retired v) s.mesh_repos in
      let s' : MeshState E = record s { mesh_repos = mesh } in
      let valid = name_known_valid s name w.registered w.mesh_valid known in
      let bound = bumped_version-lt s.mesh_repos name v bumped in
      rw e (
        unregister-IsWellFormed local s name mesh w
          (λ other ne. get-insert_ne name other (retired v) s.mesh_repos ne)
          (insert-Sorted name (retired v) s.mesh_repos w.mesh_sorted)
          (insert-AllEntries valid_repo name (retired v) s.mesh_repos (ground arith) w.mesh_valid)
          (length-insert_capped max_mesh_repos name (retired v) s.mesh_repos w.mesh_sorted
            w.mesh_cap (known_of_registered s name w.registered known)))

  -- A repo that is forgotten, or retired, leaves no claims of this machine behind, unless the claims'
  -- version is next to the ceiling.
  pub unregister-claims :
      (local : E) (s : MeshState E) (name : Text) (r : Repo)
      → IsWellFormed local s
      → get name s.repos ≡ some r
      → s.claims.version + 1 < max_record_version
      → names_of (get r.id (unregister_repo s name).0.claims.repos) ≡ []
  unfolding unregister_repo
  unregister-claims local s name r w held h =
      rw (held, unregister_repo) (released_empty s.claims r.id w.claims_valid h)

  -- Forgetting a registered repo returns its record and unregisters it here; the mesh-wide list and the
  -- other machines are untouched. A name that is not registered here is an error.
  forget_repo_lem :
      (s : MeshState E) (name : Text)
      → ((r : Repo)
          → get name s.repos ≡ some r
          → (t : MeshState E) × (forget_repo s name ≡ ok (t, r))
            × (get name t.repos ≡ none)
            × (t.mesh_repos ≡ s.mesh_repos)
            × (t.peers ≡ s.peers))
        × (get name s.repos ≡ none → forget_repo s name ≡ err repo_not_registered)
  unfolding forget_repo
  forget_repo_lem s name =
      let same = unregister-same s name in
      (
        λ r held.
            let found = same.4 in
            ((unregister_repo s name).0, ground arith, same.5, same.0, same.1),
        λ absent. let found = same.4 in ground arith,
      )

  -- Forgetting a repo keeps the state well-formed.
  pub forget_repo-IsWellFormed :
      (local : E) (s : MeshState E) (name : Text) {t : MeshState E} {r : Repo}
      → IsWellFormed local s
      → forget_repo s name ≡ ok (t, r)
      → IsWellFormed local t
  unfolding forget_repo
  forget_repo-IsWellFormed local s name {t} {r} w h =
      let e : t ≡ (unregister_repo s name).0 = ground arith in
      rw e (
        unregister-IsWellFormed local s name s.mesh_repos w (λ other ne. refl) w.mesh_sorted
          w.mesh_valid w.mesh_cap)
