-- ===== src/Config/State/Reachable.antt =====
-- The life of a mesh state: from the empty state of a first start, by any sequence of local mutations
-- and merges of whatever peers send.
use jj_mesh.Prelude.{
  is_ok, >>=-eq-ok, ok, get, Ord, nat_ord, bool_ord, pair_ord, list_ord, option_ord, reverse_ord,
  is_some, Bool-cases, ◌≡◌, refl, ap, ◌≢◌, inl, inr, Bool, true, Option, List, arith,
}
use jj_mesh.Config.Name.{Text}
use jj_mesh.Config.RepoId.{RepoId, Repo}
use jj_mesh.Config.Membership.Peers.{peer_register}
use jj_mesh.Config.Membership.Repos.{repo_register}
use jj_mesh.Config.Machine.{rename, rename_outranks, short_hostname_valid}
use jj_mesh.Config.Claims.{claims_register, is_valid, set_claims, set_claims_lem, set_claims-Sorted}
use jj_mesh.Config.State.Defs.{default_state, repo_name, MeshState, Membership}
use jj_mesh.Config.State.Ops.{
  set_repo_claims, add_peer, rename_machine, remove_peer, add_repo, remove_repo, forget_repo,
}
use jj_mesh.Config.State.Merge.{merge_membership}
use jj_mesh.Config.State.WellFormed.{IsWellFormed}
use jj_mesh.Config.State.Peers.{add_peer-IsWellFormed}
use jj_mesh.Config.State.Tombstones.{remove_peer-IsWellFormed}
use jj_mesh.Config.State.RepoOps.{with_repos, with_repos-IsWellFormed, add_repo-IsWellFormed}
use jj_mesh.Config.State.RepoRemoval.{remove_repo-IsWellFormed, forget_repo-IsWellFormed}
use jj_mesh.Config.State.MergeWellFormed.{merge-IsWellFormed}

module _ {E : Type 0} ⦃oe : Ord E⦄ where
  rename_machine-IsWellFormed :
      (local : E) (s : MeshState E) (name : Text) {t : MeshState E}
      → IsWellFormed local s
      → rename_machine s name ≡ ok t
      → IsWellFormed local t
  unfolding rename_machine
  rename_machine-IsWellFormed local s name {t} w h =
      let (m, renamed, done) = >>=-eq-ok (rename s.machine name) _ h in
      let facts = rename_outranks s.machine name w.machine_version renamed in
      let e : t ≡ record s { machine = m } = ground arith in
      rw e (record {
        name_valid = rw facts.0 (ap is_ok facts.1);
        machine_version = facts.2;
        peers_sorted = w.peers_sorted;
        peers_valid = w.peers_valid;
        peers_cap = w.peers_cap;
        repos_sorted = w.repos_sorted;
        registered = w.registered;
        mesh_sorted = w.mesh_sorted;
        mesh_valid = w.mesh_valid;
        mesh_cap = w.mesh_cap;
        claims_version = w.claims_version;
        claims_valid = w.claims_valid;
        claims_sorted = w.claims_sorted;
        peer_claims_sorted = w.peer_claims_sorted;
        peer_claims_valid = w.peer_claims_valid;
        peer_claims_cap = w.peer_claims_cap;
      })

  set_repo_claims-IsWellFormed :
      (local : E) (s : MeshState E) (id : RepoId) (names : List Text) {t : MeshState E}
      → IsWellFormed local s
      → set_repo_claims s id names ≡ ok t
      → IsWellFormed local t
  unfolding set_repo_claims
  set_repo_claims-IsWellFormed local s id names {t} w h =
      elim (Bool-cases (is_some (repo_name s id))) [
        | inr off ↦ let e : t ≡ s = ground arith in rw e w
        | inl on ↦
            let (d, done, rest) = >>=-eq-ok (set_claims s.claims id names) _ (rw on at h) in
            let facts = set_claims_lem s.claims id names w.claims_version done in
            let e : t ≡ with_repos s s.repos s.mesh_repos d = ground arith in
            let valid : is_valid d ≡ true = ground (arith, facts.0, w.claims_valid) in
            rw e (
              with_repos-IsWellFormed local s s.repos s.mesh_repos d w
                (record {
                  repos_sorted = w.repos_sorted;
                  registered = w.registered;
                  claims_version = facts.3;
                  claims_valid = valid;
                  claims_sorted = set_claims-Sorted s.claims id names w.claims_sorted done;
                })
                w.mesh_sorted w.mesh_valid w.mesh_cap)
      ]

  -- One mutation that succeeds. `parse` and `canonical` are those of the operations; a machine is never
  -- paired with itself.
  pub data Step (parse : Text → Option E) (canonical : Text → Text) (local : E)
      : MeshState E → MeshState E → Type 0 where
    peer_added :
        {s t : MeshState E} (endpoint : E) (name : Text)
        → endpoint ≢ local
        → add_peer s endpoint name ≡ ok t
        → Step parse canonical local s t
    peer_removed :
        {s t : MeshState E} (selector : Text) (endpoint : E)
        → remove_peer parse s selector ≡ ok (t, endpoint)
        → Step parse canonical local s t
    machine_renamed :
        {s t : MeshState E} (name : Text)
        → rename_machine s name ≡ ok t
        → Step parse canonical local s t
    repo_added :
        {s t : MeshState E} (name : Text) (r : Repo)
        → add_repo canonical s name r ≡ ok t
        → Step parse canonical local s t
    repo_removed :
        {s t : MeshState E} (name : Text) (here : Bool)
        → remove_repo s name ≡ ok (t, here)
        → Step parse canonical local s t
    repo_forgotten :
        {s t : MeshState E} (name : Text) (r : Repo)
        → forget_repo s name ≡ ok (t, r)
        → Step parse canonical local s t
    claims_set :
        {s t : MeshState E} (id : RepoId) (names : List Text)
        → set_repo_claims s id names ≡ ok t
        → Step parse canonical local s t
    membership_merged :
        {s : MeshState E} (remote : Membership E)
        → Step parse canonical local s (merge_membership s remote local).0

  pub data Reach (parse : Text → Option E) (canonical : Text → Text) (local : E) (s : MeshState E)
      : MeshState E → Type 0 where
    here : Reach parse canonical local s s
    next :
        {t u : MeshState E}
        → Reach parse canonical local s t
        → Step parse canonical local t u
        → Reach parse canonical local s u

  module _ (parse : Text → Option E) (canonical : Text → Text) (local : E) where
    pub Step-IsWellFormed :
        {s t : MeshState E}
        → Step parse canonical local s t
        → IsWellFormed local s
        → IsWellFormed local t
    Step-IsWellFormed {s} (peer_added endpoint name ne h) w =
        add_peer-IsWellFormed local s endpoint name w ne h
    Step-IsWellFormed {s} (peer_removed selector endpoint h) w =
        remove_peer-IsWellFormed parse local s selector w h
    Step-IsWellFormed {s} (machine_renamed name h) w = rename_machine-IsWellFormed local s name w h
    Step-IsWellFormed {s} (repo_added name r h) w =
        add_repo-IsWellFormed canonical local s name r w h
    Step-IsWellFormed {s} (repo_removed name was h) w = remove_repo-IsWellFormed local s name w h
    Step-IsWellFormed {s} (repo_forgotten name r h) w = forget_repo-IsWellFormed local s name w h
    Step-IsWellFormed {s} (claims_set id names h) w =
        set_repo_claims-IsWellFormed local s id names w h
    Step-IsWellFormed {s} (membership_merged remote) w = merge-IsWellFormed local s remote w

    default-IsWellFormed : (hostname : Text) → IsWellFormed local (default_state hostname)
    unfolding is_valid get
    default-IsWellFormed hostname = record {
      name_valid = ap is_ok (short_hostname_valid hostname);
      machine_version = omega arith;
      peers_sorted = tt;
      peers_valid = tt;
      peers_cap = omega arith;
      repos_sorted = tt;
      registered = λ name h. ground arith;
      mesh_sorted = tt;
      mesh_valid = tt;
      mesh_cap = omega arith;
      claims_version = omega arith;
      claims_valid = refl;
      claims_sorted = tt;
      peer_claims_sorted = tt;
      peer_claims_valid = tt;
      peer_claims_cap = omega arith;
    }

    -- Whatever a machine does and hears from its first start on, as long as it is never paired with itself,
    -- its mesh state is well-formed: names are valid, versions are below the ceiling, the numbers of peers,
    -- repos and claims are within their caps, every registered repo is in use in the mesh, and only alive
    -- machines have claims.
    pub Reach-IsWellFormed :
        (hostname : Text) {t : MeshState E}
        → Reach parse canonical local (default_state hostname) t
        → IsWellFormed local t
    Reach-IsWellFormed hostname here = default-IsWellFormed hostname
    Reach-IsWellFormed hostname (next r step) =
        Step-IsWellFormed step (Reach-IsWellFormed hostname r)
