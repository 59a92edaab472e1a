-- ===== src/Config/State/Equality.antt =====
-- The derived equality of `MeshState`, and `membership_differs`. A record is compared by its fields.
use jj_mesh.Prelude.{
  BTreeMap, eqb, eqb_refl, eqb_sound, Ord, nat_ord, bool_ord, pair_ord, list_ord, option_ord,
  reverse_ord, ℕ, ◌≡◌, refl, Bool, true, false, not, ◌&&◌, ◌||◌, Option, List, [], ◌∷◌, map, arith,
}
use jj_mesh.Config.Name.{Text}
use jj_mesh.Config.RepoId.{RepoId, Repo}
use jj_mesh.Config.Membership.Peers.{status_name, peer_register, Peer}
use jj_mesh.Config.Membership.Repos.{status_id, repo_register, MeshRepo}
use jj_mesh.Config.Machine.{Machine}
use jj_mesh.Config.Claims.{WorkspaceClaims, claims_register}
use jj_mesh.Config.State.Defs.{membership, MeshState}

-- The fields of a record, which determine it
abbrev peer_fields : {E : Type 0} → E × Peer → E × (ℕ × Option Text)
peer_fields e = (e.0, (e.1.version, status_name e.1.status))

abbrev repo_fields : Text × Repo → Text × (RepoId × Text)
repo_fields e = (e.0, (e.1.id, e.1.path))

abbrev mesh_fields : Text × MeshRepo → Text × (ℕ × Option RepoId)
mesh_fields e = (e.0, (e.1.version, status_id e.1.status))

abbrev claims_fields : WorkspaceClaims → ℕ × BTreeMap RepoId (List Text)
claims_fields c = (c.version, c.repos)

abbrev peer_claims_fields :
    {E : Type 0} → E × WorkspaceClaims → E × (ℕ × BTreeMap RepoId (List Text))
peer_claims_fields e = (e.0, claims_fields e.1)

abbrev machine_fields : Machine → Text × ℕ
machine_fields m = (m.name, m.version)

map-injective :
    {A B : Type 0} (f : A → B)
    → ((a b : A) → f a ≡ f b → a ≡ b)
    → (xs ys : List A) → map f xs ≡ map f ys
    → xs ≡ ys
map-injective f inj [] [] h = refl
map-injective f inj [] (y ∷ ys) h = ground arith
map-injective f inj (x ∷ xs) [] h = ground arith
map-injective f inj (x ∷ xs) (y ∷ ys) h = ground (arith, inj x y, map-injective f inj xs ys)

peer_fields-injective : {E : Type 0} (a b : E × Peer) → peer_fields a ≡ peer_fields b → a ≡ b
peer_fields-injective a b h = ground arith

repo_fields-injective : (a b : Text × Repo) → repo_fields a ≡ repo_fields b → a ≡ b
repo_fields-injective a b h = ground arith

mesh_fields-injective : (a b : Text × MeshRepo) → mesh_fields a ≡ mesh_fields b → a ≡ b
mesh_fields-injective a b h = ground arith

claims_fields-injective : (a b : WorkspaceClaims) → claims_fields a ≡ claims_fields b → a ≡ b
claims_fields-injective a b h = ground arith

peer_claims_fields-injective :
    {E : Type 0} (a b : E × WorkspaceClaims) → peer_claims_fields a ≡ peer_claims_fields b → a ≡ b
peer_claims_fields-injective a b h = ground arith

module _ {E : Type 0} ⦃oe : Ord E⦄ where
  unfoldable pub same_machine : MeshState E → MeshState E → Bool
  same_machine s t = eqb (machine_fields s.machine) (machine_fields t.machine)

  unfoldable pub same_peers : MeshState E → MeshState E → Bool
  same_peers s t = eqb (map peer_fields s.peers) (map peer_fields t.peers)

  unfoldable pub same_repos : MeshState E → MeshState E → Bool
  same_repos s t = eqb (map repo_fields s.repos) (map repo_fields t.repos)

  unfoldable pub same_mesh_repos : MeshState E → MeshState E → Bool
  same_mesh_repos s t = eqb (map mesh_fields s.mesh_repos) (map mesh_fields t.mesh_repos)

  unfoldable pub same_claims : MeshState E → MeshState E → Bool
  same_claims s t = eqb (claims_fields s.claims) (claims_fields t.claims)

  unfoldable pub same_peer_claims : MeshState E → MeshState E → Bool
  same_peer_claims s t =
      eqb (map peer_claims_fields s.peer_claims) (map peer_claims_fields t.peer_claims)

  -- `MeshState::membership_differs`
  unfoldable pub membership_differs : MeshState E → MeshState E → Bool
  membership_differs s t =
      not (same_machine s t)
      || (not (same_peers s t)
          || (not (same_mesh_repos s t) || (not (same_claims s t) || not (same_peer_claims s t))))

  -- `==`
  unfoldable pub same_state : MeshState E → MeshState E → Bool
  unfolding membership_differs
  same_state s t = not (membership_differs s t) && same_repos s t

  machine_sound : (s t : MeshState E) → same_machine s t ≡ true → s.machine ≡ t.machine
  unfolding same_machine
  machine_sound s t h =
      let e = eqb_sound (machine_fields s.machine) (machine_fields t.machine) h in ground arith

  peers_sound : (s t : MeshState E) → same_peers s t ≡ true → s.peers ≡ t.peers
  unfolding same_peers
  peers_sound s t h =
      map-injective peer_fields peer_fields-injective s.peers t.peers
        (eqb_sound (map peer_fields s.peers) (map peer_fields t.peers) h)

  repos_sound : (s t : MeshState E) → same_repos s t ≡ true → s.repos ≡ t.repos
  unfolding same_repos
  repos_sound s t h =
      map-injective repo_fields repo_fields-injective s.repos t.repos
        (eqb_sound (map repo_fields s.repos) (map repo_fields t.repos) h)

  mesh_repos_sound : (s t : MeshState E) → same_mesh_repos s t ≡ true → s.mesh_repos ≡ t.mesh_repos
  unfolding same_mesh_repos
  mesh_repos_sound s t h =
      map-injective mesh_fields mesh_fields-injective s.mesh_repos t.mesh_repos
        (eqb_sound (map mesh_fields s.mesh_repos) (map mesh_fields t.mesh_repos) h)

  claims_sound : (s t : MeshState E) → same_claims s t ≡ true → s.claims ≡ t.claims
  unfolding same_claims
  claims_sound s t h =
      claims_fields-injective s.claims t.claims
        (eqb_sound (claims_fields s.claims) (claims_fields t.claims) h)

  peer_claims_sound :
      (s t : MeshState E) → same_peer_claims s t ≡ true → s.peer_claims ≡ t.peer_claims
  unfolding same_peer_claims
  peer_claims_sound s t h =
      map-injective peer_claims_fields peer_claims_fields-injective s.peer_claims t.peer_claims
        (eqb_sound (map peer_claims_fields s.peer_claims) (map peer_claims_fields t.peer_claims) h)

  -- What is gossiped of a state depends on the fields that are compared only.
  same_gossip :
      (s t : MeshState E)
      → membership_differs s t ≡ false
      → (s.machine ≡ t.machine)
        × (s.peers ≡ t.peers)
        × (s.mesh_repos ≡ t.mesh_repos)
        × (s.claims ≡ t.claims)
        × (s.peer_claims ≡ t.peer_claims)
  unfolding membership_differs
  same_gossip s t h = (
    machine_sound s t (ground arith),
    peers_sound s t (ground arith),
    mesh_repos_sound s t (ground arith),
    claims_sound s t (ground arith),
    peer_claims_sound s t (ground arith),
  )

  -- A state whose membership is not reported as different gossips the same membership.
  pub membership_differs_sound :
      (s t : MeshState E) (local : E)
      → membership_differs s t ≡ false
      → membership s local ≡ membership t local
  unfolding membership
  membership_differs_sound s t local h =
      let (m, p, r, c, pc) = same_gossip s t h in rw (m, p, r, c, pc) refl

  -- States that compare as equal are equal.
  pub same_state_sound : (s t : MeshState E) → same_state s t ≡ true → s ≡ t
  unfolding same_state
  same_state_sound s t h =
      let (m, p, r, c, pc) = same_gossip s t (ground arith) in
      let l = repos_sound s t (ground arith) in ground arith

  pub same_state_refl : (s : MeshState E) → same_state s s ≡ true
  unfolding same_state membership_differs same_machine same_peers same_repos same_mesh_repos
      same_claims same_peer_claims
  same_state_refl s = ground (
    arith,
    eqb_refl (machine_fields s.machine),
    eqb_refl (map peer_fields s.peers),
    eqb_refl (map repo_fields s.repos),
    eqb_refl (map mesh_fields s.mesh_repos),
    eqb_refl (claims_fields s.claims),
    eqb_refl (map peer_claims_fields s.peer_claims),
  )
