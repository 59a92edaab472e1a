-- ===== src/Config/State/MergeWellFormed.antt =====
-- `merge_membership` and the well-formedness of the state.
use mathlib.Core.Path.{subst}
use native.Mathlib.Nat.{le_trans}
use jj_mesh.Prelude.{
  retain-Sorted, total-retain-le, Ord, nat_ord, bool_ord, pair_ord, list_ord, option_ord,
  reverse_ord, ℕ, ◌≡◌, refl, sym, ap, ◌∙◌, [], foldl, arith,
}
use jj_mesh.Config.Membership.Register.{max_other_peers, max_mesh_repos}
use jj_mesh.Config.Membership.Peers.{peer_register}
use jj_mesh.Config.Membership.Repos.{repo_register}
use jj_mesh.Config.Membership.Adoption.{adopt_all, adopt_all-Sorted, length-adopt_all}
use jj_mesh.Config.Membership.Convergence.{adopt_all-AllEntries}
use jj_mesh.Config.Claims.{count, claims_register}
use jj_mesh.Config.State.Defs.{MeshState, Membership}
use jj_mesh.Config.State.Ops.{is_alive, prune_claims}
use jj_mesh.Config.State.Merge.{
  total_claims, merge_peer, merge_repo, merge_claim, merge_claims, merge_membership,
}
use jj_mesh.Config.State.Loops.{
  valid_repo, valid_peer, SameRepos-merge_peers, SamePeers-merge_repos, SameRecords,
  SameRecords-fold, peers-merge, mesh_repos-merge,
}
use jj_mesh.Config.State.WellFormed.{IsWellFormed}
use jj_mesh.Config.State.Tombstones.{retain-valid_claim, claims_ok}
use jj_mesh.Config.State.Repos.{KeepsRepos}
use jj_mesh.Config.State.MergeKeeps.{
  KeepsMachine, KeepsMachine-merge_peers, KeepsRepos-merge_repos, KeepsClaims-merge_claims,
  KeepsClaims,
}

module _ {E : Type 0} ⦃oe : Ord E⦄ where
  module _ (local : E) (s : MeshState E) (remote : Membership E) (w : IsWellFormed local s) where
    after_peers : MeshState E
    after_peers = foldl (merge_peer local) s remote.peers

    after_repos : MeshState E
    unfolding after_peers
    after_repos = (foldl merge_repo (after_peers, []) remote.repos).0

    repos_kept : KeepsRepos after_repos
    unfolding after_repos
    repos_kept =
        let same = SameRepos-merge_peers local s remote.peers in
        KeepsRepos-merge_repos (after_peers, []) remote.repos
          (record {
            repos_sorted = rw same.0 w.repos_sorted;
            registered = rw (same.0, same.1) w.registered;
            claims_version = rw same.2 w.claims_version;
            claims_valid = rw same.2 w.claims_valid;
            claims_sorted = rw same.2 w.claims_sorted;
          })

    after_claims : MeshState E × ℕ
    after_claims =
        foldl (merge_claim local) (after_repos, total_claims after_repos.peer_claims) remote.claims

    same_peer_claims : after_repos.peer_claims ≡ s.peer_claims
    unfolding after_repos
    same_peer_claims =
        (SamePeers-merge_repos (after_peers, []) remote.repos).2
        ∙ (SameRepos-merge_peers local s remote.peers).3

    claims_kept : KeepsClaims after_claims.0 after_claims.1
    unfolding after_claims
    claims_kept =
        KeepsClaims-merge_claims local (after_repos, total_claims after_repos.peer_claims)
          remote.claims
          (record {
            own_version = repos_kept.claims_version;
            own_valid = repos_kept.claims_valid;
            own_sorted = repos_kept.claims_sorted;
            sorted = rw same_peer_claims w.peer_claims_sorted;
            all_ok = rw same_peer_claims (claims_ok s.peers s.peer_claims w.peer_claims_valid);
            counted = refl;
            capped = rw same_peer_claims w.peer_claims_cap;
          })

    merged : MeshState E
    merged = (merge_membership s remote local).0

    peers_of_merged :
        merged.peers ≡ adopt_all (valid_peer local) max_other_peers s.peers remote.peers
    unfolding merged
    peers_of_merged = peers-merge s remote local

    mesh_of_merged :
        merged.mesh_repos ≡ adopt_all valid_repo max_mesh_repos s.mesh_repos remote.repos
    unfolding merged
    mesh_of_merged = mesh_repos-merge s remote local

    merged_shape : merged ≡ prune_claims after_claims.0
    unfolding merged after_claims merge_membership merge_claims after_repos
    merged_shape = refl

    same_records : SameRecords after_claims.0 after_repos
    unfolding after_claims
    same_records =
        SameRecords-fold local (after_repos, total_claims after_repos.peer_claims) remote.claims

    machine_kept : KeepsMachine s after_claims.0
    unfolding after_repos after_peers
    machine_kept =
        let one = KeepsMachine-merge_peers local s remote.peers w.machine_version in
        let same = same_records.0 ∙ (SamePeers-merge_repos (after_peers, []) remote.repos).0 in
        (rw same one.0, rw same one.1)

    peers_merged :
        after_claims.0.peers ≡ adopt_all (valid_peer local) max_other_peers s.peers remote.peers
    unfolding prune_claims
    peers_merged = ap MeshState.peers (sym merged_shape) ∙ peers_of_merged

    mesh_merged :
        after_claims.0.mesh_repos ≡ adopt_all valid_repo max_mesh_repos s.mesh_repos remote.repos
    unfolding prune_claims
    mesh_merged = ap MeshState.mesh_repos (sym merged_shape) ∙ mesh_of_merged

    pruned-IsWellFormed : IsWellFormed local (prune_claims after_claims.0)
    unfolding prune_claims
    pruned-IsWellFormed = record {
      name_valid = rw machine_kept.0 w.name_valid;
      machine_version = machine_kept.1;
      peers_sorted =
          rw peers_merged (
            adopt_all-Sorted (valid_peer local) max_other_peers s.peers remote.peers
              w.peers_sorted);
      peers_valid = rw peers_merged (
          adopt_all-AllEntries (valid_peer local) max_other_peers s.peers remote.peers
            w.peers_valid);
      peers_cap = rw peers_merged (
          length-adopt_all (valid_peer local) max_other_peers s.peers remote.peers w.peers_sorted
            w.peers_cap);
      repos_sorted = rw same_records.2 repos_kept.repos_sorted;
      registered = rw (same_records.2, same_records.3) repos_kept.registered;
      mesh_sorted =
          rw mesh_merged
            (adopt_all-Sorted valid_repo max_mesh_repos s.mesh_repos remote.repos w.mesh_sorted);
      mesh_valid =
          rw mesh_merged
            (adopt_all-AllEntries valid_repo max_mesh_repos s.mesh_repos remote.repos w.mesh_valid);
      mesh_cap = rw mesh_merged (
          length-adopt_all valid_repo max_mesh_repos s.mesh_repos remote.repos w.mesh_sorted
            w.mesh_cap);
      claims_version = claims_kept.own_version;
      claims_valid = claims_kept.own_valid;
      claims_sorted = claims_kept.own_sorted;
      peer_claims_sorted =
          retain-Sorted (λ k c. is_alive after_claims.0.peers k) after_claims.0.peer_claims
            claims_kept.sorted;
      peer_claims_valid =
          retain-valid_claim after_claims.0.peers after_claims.0.peer_claims claims_kept.all_ok;
      peer_claims_cap =
          le_trans
            (total-retain-le count (λ k c. is_alive after_claims.0.peers k)
              after_claims.0.peer_claims)
            (omega (arith, claims_kept.counted, claims_kept.capped));
    }

  -- Merging any membership into a well-formed state gives a well-formed state: within the caps, with
  -- valid names, versions below the ceiling, and claims of alive machines only.
  pub merge-IsWellFormed :
      (local : E) (s : MeshState E) (remote : Membership E)
      → IsWellFormed local s
      → IsWellFormed local (merge_membership s remote local).0
  unfolding merged
  merge-IsWellFormed local s remote w =
      subst (IsWellFormed local) (sym (merged_shape local s remote w))
        (pruned-IsWellFormed local s remote w)
