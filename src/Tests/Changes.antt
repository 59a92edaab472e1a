-- ===== src/Tests/Changes.antt =====
-- The local mutations at concrete states.
use jj_mesh.Prelude.{
  is_ok, ok, retain, get, contains_key, insert, remove, nat_ord, bool_ord, pair_ord, list_ord,
  option_ord, reverse_ord, is_some, length, all, ℕ, ◌≤◌, ◌<◌, ◌≡◌, refl, ◌≢◌, true, false, none,
  some, [], ◌∷◌, arith,
}
use jj_mesh.Config.Name.{Text, is_confusable, validate_name}
use jj_mesh.Config.RepoId.{RepoId}
use jj_mesh.Config.Membership.Register.{next_version, bumped_version}
use jj_mesh.Config.Membership.Peers.{peer_register, PeerStatus, Peer}
use jj_mesh.Config.Membership.Repos.{repo_outranks, repo_register, MeshRepoStatus, MeshRepo}
use jj_mesh.Config.Claims.{claims_register, names_of, workspace_name, set_claims}
use jj_mesh.Config.State.Defs.{
  default_state, find_id, paired_name, alive_peers, repo_name, mesh_repo_id, repo_claims,
  membership, MeshState,
}
use jj_mesh.Config.State.Ops.{
  set_repo_claims, validate_new_peer, add_peer, prune_claims, resolve, resolve_peer, remove_peer,
  unregister_repo, remove_repo,
}
use jj_mesh.Config.State.Merge.{merge_membership}
use jj_mesh.Config.State.WellFormed.{IsWellFormed}
use jj_mesh.Config.State.Tombstones.{tombstone, remove_peer_lem}
use jj_mesh.Config.State.Spread.{remove_peer_spreads}
use jj_mesh.Config.State.RepoRemoval.{remove_repo_lem}
use jj_mesh.Config.State.ClaimLimits.{set_repo_claims_within_limit}
use jj_mesh.Config.State.Reachable.{Reach-IsWellFormed, here}
use jj_mesh.Tests.Data.{
  alice, bob, docs, docs_id, parse, canonical, start, bob_record, with_bob, with_docs,
  with_docs-IsWellFormed, held_bob, carol,
}

abbrev without_bob : MeshState ℕ
without_bob = record with_docs {
  peers = (2, record { version = 2; status = PeerStatus.removed }) ∷ [];
}

remove_bob : remove_peer parse with_docs bob ≡ ok (without_bob, 2)
unfolding remove_peer resolve_peer resolve alive_peers bumped_version next_version get insert
    prune_claims retain
remove_bob = refl

-- The third machine has bob at the version that alice had.
abbrev carols : MeshState ℕ
carols = record (default_state carol) { peers = (2, bob_record) ∷ [] }

carols_bob : (q : Peer) → get 2 carols.peers ≡ some q → q.version ≤ bob_record.version
unfolding get
carols_bob q h = ground arith

remove_peer_spreads_example :
    paired_name (merge_membership carols (membership without_bob 1) 3).0 2 ≡ none
remove_peer_spreads_example =
    remove_peer_spreads parse 1 3 with_docs carols bob with_docs-IsWellFormed remove_bob held_bob
      (λ e. ground arith) carols_bob

remove_peer_lem_example :
    (paired_name without_bob 2 ≡ none)
    × (get 2 without_bob.peer_claims ≡ none)
    × ((other : ℕ) → other ≢ 2 → get other without_bob.peers ≡ get other with_docs.peers)
    × ((old : Peer)
        → get 2 with_docs.peers ≡ some old
        → (v : ℕ) × (get 2 without_bob.peers ≡ some (tombstone v)) × (old.version < v))
remove_peer_lem_example = remove_peer_lem parse 1 with_docs bob with_docs-IsWellFormed remove_bob

resolved_bob : resolve_peer parse with_docs bob ≡ ok 2
unfolding resolve_peer resolve alive_peers
resolved_bob = refl

start-IsWellFormed : IsWellFormed 1 start
start-IsWellFormed = Reach-IsWellFormed parse canonical 1 alice here

bob_again : is_ok (add_peer with_docs 2 bob) ≡ false
unfolding add_peer validate_new_peer validate_name is_confusable get
bob_again = refl

abbrev without_docs : MeshState ℕ
without_docs = record with_bob {
  mesh_repos = (docs, record { version = 2; status = MeshRepoStatus.removed }) ∷ [];
}

remove_docs : remove_repo with_docs docs ≡ ok (without_docs, true)
unfolding remove_repo bumped_version next_version unregister_repo get insert remove set_claims
remove_docs = refl

remove_repo_lem_example :
    (get docs without_docs.repos ≡ none)
    × (mesh_repo_id without_docs docs ≡ none)
    × (true ≡ contains_key docs with_docs.repos)
    × ((other : Text)
        → other ≢ docs
        → (get other without_docs.mesh_repos ≡ get other with_docs.mesh_repos)
          × (get other without_docs.repos ≡ get other with_docs.repos))
    × (without_docs.peers ≡ with_docs.peers)
    × ((new : MeshRepo) × (get docs without_docs.mesh_repos ≡ some new)
        × (new.status ≡ MeshRepoStatus.removed)
        × ((old : MeshRepo)
            → get docs with_docs.mesh_repos ≡ some old
            → repo_outranks new old ≡ true))
remove_repo_lem_example = remove_repo_lem 1 with_docs docs with_docs-IsWellFormed remove_docs

docs_again : is_ok (remove_repo without_docs docs) ≡ false
unfolding remove_repo get
docs_again = refl

known_docs : is_some (repo_name with_docs docs_id) ≡ true
unfolding find_id
known_docs = refl

bob_named : all workspace_name (bob ∷ []) ≡ true
unfolding validate_name is_confusable
bob_named = refl

one_claim : length (bob ∷ []) ≤ (repo_claims with_docs docs_id).limit
unfolding repo_claims get
one_claim = omega arith

set_repo_claims_within_limit_example :
    (t : MeshState ℕ) × (set_repo_claims with_docs docs_id (bob ∷ []) ≡ ok t)
    × (names_of (get docs_id t.claims.repos) ≡ bob ∷ [])
    × ((other : RepoId)
        → docs_id ≢ other
        → get other t.claims.repos ≡ get other with_docs.claims.repos)
set_repo_claims_within_limit_example =
    set_repo_claims_within_limit 1 with_docs docs_id (bob ∷ []) with_docs-IsWellFormed known_docs
      bob_named one_claim (omega arith)
