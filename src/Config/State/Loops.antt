-- ===== src/Config/State/Loops.antt =====
-- The two loops of `merge_membership` as runs of the adoption loop on one field of the state.
use jj_mesh.Prelude.{
  is_ok, eqb, Ord, nat_ord, bool_ord, pair_ord, list_ord, option_ord, reverse_ord, leb, ℕ, ◌≡◌,
  refl, ap, ◌∙◌, Bool, not, ◌&&◌, List, [], ◌∷◌, foldl, arith,
}
use jj_mesh.Config.Error.{Kind}
use jj_mesh.Config.Name.{Text, validate_name}
use jj_mesh.Config.Membership.Register.{max_other_peers, max_mesh_repos, max_record_version}
use jj_mesh.Config.Membership.Peers.{peer_register, Peer}
use jj_mesh.Config.Membership.Repos.{repo_register, MeshRepo}
use jj_mesh.Config.Membership.Adoption.{adopt, adopt_all}
use jj_mesh.Config.Claims.{WorkspaceClaims, claims_register}
use jj_mesh.Config.State.Defs.{MeshState, Membership}
use jj_mesh.Config.State.Ops.{unregister_repo}
use jj_mesh.Config.State.Merge.{
  peer_name_valid, total_claims, merge_peer, merge_repo, merge_claim, merge_claims,
  merge_membership,
}

-- The records of a repo that the second loop may adopt
abbrev pub valid_repo : Text → MeshRepo → Bool
valid_repo name r = is_ok (validate_name Kind.repo name) && not (leb max_record_version r.version)

module _ {E : Type 0} ⦃oe : Ord E⦄ where
  -- The records of a peer that the first loop may adopt
  abbrev pub valid_peer : E → E → Peer → Bool
  valid_peer local endpoint r =
      not (leb max_record_version r.version)
      && (not (eqb endpoint local) && peer_name_valid r.status)

  -- What the fold over `remote.peers` leaves alone
  abbrev pub SameRepos : MeshState E → MeshState E → Type 0
  SameRepos s t =
      (s.repos ≡ t.repos)
      × (s.mesh_repos ≡ t.mesh_repos)
      × (s.claims ≡ t.claims)
      × (s.peer_claims ≡ t.peer_claims)

  peers-merge_peer :
      (local : E) (s : MeshState E) (e : E × Peer)
      → (merge_peer local s e).peers ≡ adopt (valid_peer local) max_other_peers s.peers e
  unfolding merge_peer adopt
  peers-merge_peer local s (endpoint, r) = ground arith

  SameRepos-merge_peer :
      (local : E) (s : MeshState E) (e : E × Peer) → SameRepos (merge_peer local s e) s
  unfolding merge_peer
  SameRepos-merge_peer local s (endpoint, r) = ground arith

  pub peers-merge_peers :
      (local : E) (s : MeshState E) (es : List (E × Peer))
      → (foldl (merge_peer local) s es).peers
        ≡ adopt_all (valid_peer local) max_other_peers s.peers es
  unfolding adopt_all
  peers-merge_peers local s [] = refl
  peers-merge_peers local s (e ∷ es) =
      peers-merge_peers local (merge_peer local s e) es
      ∙ ap (λ m. adopt_all (valid_peer local) max_other_peers m es) (peers-merge_peer local s e)

  pub SameRepos-merge_peers :
      (local : E) (s : MeshState E) (es : List (E × Peer))
      → SameRepos (foldl (merge_peer local) s es) s
  SameRepos-merge_peers local s [] = (refl, refl, refl, refl)
  SameRepos-merge_peers local s (e ∷ es) =
      let a = SameRepos-merge_peers local (merge_peer local s e) es in
      let b = SameRepos-merge_peer local s e in (a.0 ∙ b.0, a.1 ∙ b.1, a.2 ∙ b.2, a.3 ∙ b.3)

  -- What the fold over `remote.repos` leaves alone
  abbrev pub SamePeers : MeshState E → MeshState E → Type 0
  SamePeers s t = (s.machine ≡ t.machine) × (s.peers ≡ t.peers) × (s.peer_claims ≡ t.peer_claims)

  mesh_repos-merge_repo :
      (p : MeshState E × List Text) (e : Text × MeshRepo)
      → (merge_repo p e).0.mesh_repos ≡ adopt valid_repo max_mesh_repos p.0.mesh_repos e
  unfolding merge_repo unregister_repo adopt
  mesh_repos-merge_repo (s, gone) (name, r) = ground arith

  SamePeers-merge_repo :
      (p : MeshState E × List Text) (e : Text × MeshRepo) → SamePeers (merge_repo p e).0 p.0
  unfolding merge_repo unregister_repo
  SamePeers-merge_repo (s, gone) (name, r) = ground arith

  pub mesh_repos-merge_repos :
      (p : MeshState E × List Text) (es : List (Text × MeshRepo))
      → (foldl merge_repo p es).0.mesh_repos ≡ adopt_all valid_repo max_mesh_repos p.0.mesh_repos es
  unfolding adopt_all
  mesh_repos-merge_repos p [] = refl
  mesh_repos-merge_repos p (e ∷ es) =
      mesh_repos-merge_repos (merge_repo p e) es
      ∙ ap (λ m. adopt_all valid_repo max_mesh_repos m es) (mesh_repos-merge_repo p e)

  pub SamePeers-merge_repos :
      (p : MeshState E × List Text) (es : List (Text × MeshRepo))
      → SamePeers (foldl merge_repo p es).0 p.0
  SamePeers-merge_repos p [] = (refl, refl, refl)
  SamePeers-merge_repos p (e ∷ es) =
      let a = SamePeers-merge_repos (merge_repo p e) es in
      let b = SamePeers-merge_repo p e in (a.0 ∙ b.0, a.1 ∙ b.1, a.2 ∙ b.2)

  -- What the merge of the claims leaves alone
  abbrev pub SameRecords : MeshState E → MeshState E → Type 0
  SameRecords s t =
      (s.machine ≡ t.machine)
      × (s.peers ≡ t.peers)
      × (s.repos ≡ t.repos)
      × (s.mesh_repos ≡ t.mesh_repos)

  SameRecords-merge_claim :
      (local : E) (p : MeshState E × ℕ) (e : E × WorkspaceClaims)
      → SameRecords (merge_claim local p e).0 p.0
  unfolding merge_claim
  SameRecords-merge_claim local (s, others) (endpoint, r) = ground arith

  pub SameRecords-fold :
      (local : E) (p : MeshState E × ℕ) (es : List (E × WorkspaceClaims))
      → SameRecords (foldl (merge_claim local) p es).0 p.0
  SameRecords-fold local p [] = (refl, refl, refl, refl)
  SameRecords-fold local p (e ∷ es) =
      let a = SameRecords-fold local (merge_claim local p e) es in
      let b = SameRecords-merge_claim local p e in (a.0 ∙ b.0, a.1 ∙ b.1, a.2 ∙ b.2, a.3 ∙ b.3)

  pub SameRecords-merge_claims :
      (s : MeshState E) (remote : Membership E) (local : E)
      → SameRecords (merge_claims s remote local) s
  unfolding merge_claims
  SameRecords-merge_claims s remote local =
      SameRecords-fold local (s, total_claims s.peer_claims) remote.claims

  -- The peers after a merge
  pub peers-merge :
      (s : MeshState E) (remote : Membership E) (local : E)
      → (merge_membership s remote local).0.peers
        ≡ adopt_all (valid_peer local) max_other_peers s.peers remote.peers
  unfolding merge_membership
  peers-merge s remote local =
      let s₁ = foldl (merge_peer local) s remote.peers in
      let p₂ = foldl merge_repo (s₁, []) remote.repos in
      (SameRecords-merge_claims p₂.0 remote local).1
      ∙ (SamePeers-merge_repos (s₁, []) remote.repos).1
      ∙ peers-merge_peers local s remote.peers

  -- The mesh-wide list of repos after a merge
  pub mesh_repos-merge :
      (s : MeshState E) (remote : Membership E) (local : E)
      → (merge_membership s remote local).0.mesh_repos
        ≡ adopt_all valid_repo max_mesh_repos s.mesh_repos remote.repos
  unfolding merge_membership
  mesh_repos-merge s remote local =
      let s₁ = foldl (merge_peer local) s remote.peers in
      let p₂ = foldl merge_repo (s₁, []) remote.repos in
      (SameRecords-merge_claims p₂.0 remote local).3
      ∙ mesh_repos-merge_repos (s₁, []) remote.repos
      ∙ ap (λ m. adopt_all valid_repo max_mesh_repos m remote.repos)
          (SameRepos-merge_peers local s remote.peers).1
