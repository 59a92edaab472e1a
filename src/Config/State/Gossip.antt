-- ===== src/Config/State/Gossip.antt =====
-- Gossip: the peers and the mesh-wide list of repos under several merges.
use jj_mesh.Prelude.{
  AllEntries, get, Sorted, Ord, nat_ord, bool_ord, pair_ord, list_ord, option_ord, reverse_ord,
  length, ◌+◌, ◌≤◌, ◌≡◌, sym, ap, ◌∙◌, false, some,
}
use jj_mesh.Config.Membership.Register.{max_other_peers, max_mesh_repos}
use jj_mesh.Config.Membership.Peers.{peer_outranks, peer_register, Peer}
use jj_mesh.Config.Membership.Repos.{repo_register}
use jj_mesh.Config.Membership.Ranking.{peer-IsRanked, repo-IsRanked}
use jj_mesh.Config.Membership.Adoption.{adopt_all, adopt_all_again, adopt_all_keeps}
use jj_mesh.Config.Membership.Convergence.{adopt_all_comm, adopt_all_swap}
use jj_mesh.Config.Claims.{claims_register}
use jj_mesh.Config.State.Defs.{membership, MeshState, Membership}
use jj_mesh.Config.State.Merge.{merge_membership}
use jj_mesh.Config.State.Loops.{valid_repo, valid_peer, peers-merge, mesh_repos-merge}

module _ {E : Type 0} ⦃oe : Ord E⦄ where
  -- Merging the same membership a second time changes neither the peers nor the list of repos.
  pub merge_again :
      (s : MeshState E) (remote : Membership E) (local : E)
      → let t = (merge_membership s remote local).0 in
        ((merge_membership t remote local).0.peers ≡ t.peers)
        × ((merge_membership t remote local).0.mesh_repos ≡ t.mesh_repos)
  merge_again s remote local =
      let t = (merge_membership s remote local).0 in
      (
        peers-merge t remote local
            ∙ ap (λ m. adopt_all (valid_peer local) max_other_peers m remote.peers)
                (peers-merge s remote local)
            ∙ adopt_all_again (valid_peer local) max_other_peers peer-IsRanked s.peers remote.peers
            ∙ sym (peers-merge s remote local),
        mesh_repos-merge t remote local
            ∙ ap (λ m. adopt_all valid_repo max_mesh_repos m remote.repos)
                (mesh_repos-merge s remote local)
            ∙ adopt_all_again valid_repo max_mesh_repos repo-IsRanked s.mesh_repos remote.repos
            ∙ sym (mesh_repos-merge s remote local),
      )

  -- Two memberships may arrive in either order: the peers and the repos come out the same, when all
  -- maps are in key order and the caps leave room for all the records together.
  pub merge_order :
      (s : MeshState E) (a b : Membership E) (local : E)
      → Sorted s.peers
      → Sorted a.peers
      → Sorted b.peers
      → Sorted s.mesh_repos
      → Sorted a.repos
      → Sorted b.repos
      → length s.peers + length a.peers + length b.peers ≤ max_other_peers
      → length s.mesh_repos + length a.repos + length b.repos ≤ max_mesh_repos
      → let ab = (merge_membership (merge_membership s a local).0 b local).0 in
        let ba = (merge_membership (merge_membership s b local).0 a local).0 in
        (ab.peers ≡ ba.peers) × (ab.mesh_repos ≡ ba.mesh_repos)
  merge_order s a b local sp va bp sr ar br room_p room_r =
      let sa = (merge_membership s a local).0 in
      let sb = (merge_membership s b local).0 in
      (
        peers-merge sa b local
            ∙ ap (λ m. adopt_all (valid_peer local) max_other_peers m b.peers)
                (peers-merge s a local)
            ∙ adopt_all_swap (valid_peer local) max_other_peers peer-IsRanked s.peers a.peers
                b.peers sp va bp room_p
            ∙ sym (
                ap (λ m. adopt_all (valid_peer local) max_other_peers m a.peers)
                  (peers-merge s b local))
            ∙ sym (peers-merge sb a local),
        mesh_repos-merge sa b local
            ∙ ap (λ m. adopt_all valid_repo max_mesh_repos m b.repos) (mesh_repos-merge s a local)
            ∙ adopt_all_swap valid_repo max_mesh_repos repo-IsRanked s.mesh_repos a.repos b.repos sr
                ar br room_r
            ∙ sym (
                ap (λ m. adopt_all valid_repo max_mesh_repos m a.repos)
                  (mesh_repos-merge s b local))
            ∙ sym (mesh_repos-merge sb a local),
      )

  -- Two machines that merge each other's memberships agree on the mesh-wide list of repos, when both
  -- lists are in key order, hold valid records only, and fit the cap together.
  pub merge_agree :
      (s t : MeshState E) (here there : E)
      → Sorted s.mesh_repos
      → Sorted t.mesh_repos
      → AllEntries valid_repo s.mesh_repos
      → AllEntries valid_repo t.mesh_repos
      → length s.mesh_repos + length t.mesh_repos ≤ max_mesh_repos
      → (merge_membership s (membership t there) here).0.mesh_repos
        ≡ (merge_membership t (membership s here) there).0.mesh_repos
  unfolding membership
  merge_agree s t here there ss st vs vt room =
      mesh_repos-merge s (membership t there) here
      ∙ adopt_all_comm valid_repo max_mesh_repos repo-IsRanked s.mesh_repos t.mesh_repos ss st vs vt
          room
      ∙ sym (mesh_repos-merge t (membership s here) there)

  -- Whatever a peer sends, the record held for a machine is still held afterwards, or one that it does
  -- not outrank.
  merge_keeps_peer :
      (s : MeshState E) (remote : Membership E) (local endpoint : E) {p : Peer}
      → get endpoint s.peers ≡ some p
      → (q : Peer) × (get endpoint (merge_membership s remote local).0.peers ≡ some q)
        × (peer_outranks p q ≡ false)
  merge_keeps_peer s remote local endpoint h = rw peers-merge (
      adopt_all_keeps (valid_peer local) max_other_peers peer-IsRanked endpoint s.peers remote.peers
        h)
