-- ===== src/Config/State/Merge.antt =====
-- `merge_membership` and `merge_claims`: a peer's gossiped membership is merged record by record.
use jj_mesh.Prelude.{
  is_ok, total, measured, BTreeMap, get, insert, eqb, Ord, nat_ord, bool_ord, pair_ord, list_ord,
  option_ord, reverse_ord, ltb, leb, if◌then◌else◌, is_some, ℕ, ◌+◌, ◌-◌, Bool, true, false, not,
  ◌||◌, Option, none, some, List, [], ◌∷◌, ◌++◌, foldl,
}
use jj_mesh.Config.Error.{Kind}
use jj_mesh.Config.Name.{Text, validate_name}
use jj_mesh.Config.Membership.Register.{
  max_other_peers, max_mesh_repos, max_record_version, should_adopt,
}
use jj_mesh.Config.Membership.Peers.{peer_register, PeerStatus, Peer}
use jj_mesh.Config.Membership.Repos.{repo_id, repo_register, MeshRepo}
use jj_mesh.Config.Machine.{observe}
use jj_mesh.Config.Claims.{
  WorkspaceClaims, count, max_other_workspaces, claims_register, is_valid, observe_claims,
  claims_outranks,
}
use jj_mesh.Config.State.Defs.{paired_name, MeshState, Membership}
use jj_mesh.Config.State.Ops.{prune_claims, unregister_repo}

abbrev pub peer_name_valid : PeerStatus → Bool
peer_name_valid (PeerStatus.alive name) = is_ok (validate_name Kind.peer name)
peer_name_valid PeerStatus.removed = true

abbrev pub not_outranking : Option WorkspaceClaims → WorkspaceClaims → Bool
not_outranking none r = false
not_outranking (some held) r = not (claims_outranks r held)

-- `peer_claims.values().map(count).sum()`
abbrev pub total_claims : {E : Type 0} → BTreeMap E WorkspaceClaims → ℕ
total_claims = total count

module _ {E : Type 0} ⦃oe : Ord E⦄ where
  -- One round of the loop over `remote.peers`
  unfoldable pub merge_peer : E → MeshState E → E × Peer → MeshState E
  merge_peer local s (endpoint, r) =
      if leb max_record_version r.version
      then s
      else if eqb endpoint local
      then record s { machine = observe s.machine r }
      else if not (peer_name_valid r.status)
      then s
      else if should_adopt s.peers endpoint r max_other_peers
      then record s { peers = insert endpoint r s.peers }
      else s

  -- What a tombstone that is adopted does to a repo registered here
  abbrev pub apply_removal : MeshState E → List Text → Text → MeshRepo → MeshState E × List Text
  apply_removal s gone name r =
      if is_some (repo_id r)
      then (s, gone)
      else (let (s', found) = unregister_repo s name in
          (s', if is_some found then gone ++ name ∷ [] else gone))

  -- One round of the loop over `remote.repos`, with the names unregistered so far
  unfoldable pub merge_repo : MeshState E × List Text → Text × MeshRepo → MeshState E × List Text
  merge_repo (s, gone) (name, r) =
      if not (is_ok (validate_name Kind.repo name)) || leb max_record_version r.version
      then (s, gone)
      else if not (should_adopt s.mesh_repos name r max_mesh_repos)
      then (s, gone)
      else apply_removal (record s { mesh_repos = insert name r s.mesh_repos }) gone name r

  -- The guard that skips a record of `merge_claims`
  abbrev pub refuses : MeshState E → E → WorkspaceClaims → Bool
  refuses s endpoint r =
      not (is_some (paired_name s endpoint))
      || (not_outranking (get endpoint s.peer_claims) r || not (is_valid r))

  -- `others` counts the held claims, those of `endpoint` among them.
  abbrev pub adopted_count : MeshState E → ℕ → E → WorkspaceClaims → ℕ
  adopted_count s others endpoint r = others - measured count (get endpoint s.peer_claims) + count r

  -- One round of the loop of `merge_claims`
  unfoldable pub merge_claim : E → MeshState E × ℕ → E × WorkspaceClaims → MeshState E × ℕ
  merge_claim local (s, others) (endpoint, r) =
      if leb max_record_version r.version
      then (s, others)
      else if eqb endpoint local
      then (record s { claims = observe_claims s.claims r }, others)
      else if refuses s endpoint r
      then (s, others)
      else if ltb max_other_workspaces (adopted_count s others endpoint r)
      then (s, others)
      else (
        record s { peer_claims = insert endpoint r s.peer_claims },
        adopted_count s others endpoint r,
      )

  unfoldable pub merge_claims : MeshState E → Membership E → E → MeshState E
  unfolding merge_claim prune_claims
  merge_claims s remote local =
      prune_claims (foldl (merge_claim local) (s, total_claims s.peer_claims) remote.claims).0

  -- The new state, and the names of the repos unregistered here.
  unfoldable pub merge_membership : MeshState E → Membership E → E → MeshState E × List Text
  unfolding merge_peer merge_repo merge_claims
  merge_membership s remote local =
      let s₁ = foldl (merge_peer local) s remote.peers in
      let (s₂, gone) = foldl merge_repo (s₁, []) remote.repos in
      (merge_claims s₂ remote local, gone)
