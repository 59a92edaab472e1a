-- ===== src/Config/State/MergeKeeps.antt =====
-- The parts of the well-formedness that each loop of `merge_membership` touches.
use jj_mesh.Prelude.{
  is_ok, AllEntries, insert-AllEntries, total-insert, measured-le-total, insert, Sorted, get-insert,
  insert-Sorted, eqb, Ord, nat_ord, bool_ord, pair_ord, list_ord, option_ord, reverse_ord, ltb, leb,
  is_some, Bool-cases, ℕ, ◌≤◌, ◌<◌, ◌≡◌, refl, ◌∙◌, inl, inr, true, not, ◌||◌, List, [], ◌∷◌, foldl,
  arith,
}
use jj_mesh.Config.Error.{Kind}
use jj_mesh.Config.Name.{Text, validate_name}
use jj_mesh.Config.Membership.Register.{max_mesh_repos, max_record_version, should_adopt}
use jj_mesh.Config.Membership.Peers.{peer_register, Peer}
use jj_mesh.Config.Membership.Repos.{repo_id, repo_register, MeshRepo}
use jj_mesh.Config.Machine.{text_eq_sound, observe_version}
use jj_mesh.Config.Claims.{
  WorkspaceClaims, count, max_other_workspaces, claims_register, is_valid, observe_claims,
}
use jj_mesh.Config.State.Defs.{MeshState}
use jj_mesh.Config.State.Merge.{
  total_claims, merge_peer, apply_removal, merge_repo, refuses, adopted_count, merge_claim,
}
use jj_mesh.Config.State.WellFormed.{claim_ok}
use jj_mesh.Config.State.Repos.{unregister-KeepsRepos, KeepsRepos}

observed_ok :
    (c copy : WorkspaceClaims)
    → c.version < max_record_version
    → ((observe_claims c copy).version < max_record_version)
      × ((observe_claims c copy).repos ≡ c.repos)
      × (is_valid (observe_claims c copy) ≡ is_valid c)
      × (c.version ≤ (observe_claims c copy).version)
unfolding observe_claims is_valid
observed_ok c copy h = (omega arith, refl, refl, omega arith)

module _ {E : Type 0} ⦃oe : Ord E⦄ where
  -- The machine's own record: its name stays, and its version stays below the ceiling.
  abbrev pub KeepsMachine : MeshState E → MeshState E → Type 0
  KeepsMachine s t = (t.machine.name ≡ s.machine.name) × (t.machine.version < max_record_version)

  KeepsMachine-merge_peer :
      (local : E) (s : MeshState E) (e : E × Peer)
      → s.machine.version < max_record_version
      → KeepsMachine s (merge_peer local s e)
  unfolding merge_peer
  KeepsMachine-merge_peer local s (endpoint, r) h = ground (arith, observe_version s.machine r h)

  pub KeepsMachine-merge_peers :
      (local : E) (s : MeshState E) (es : List (E × Peer))
      → s.machine.version < max_record_version
      → KeepsMachine s (foldl (merge_peer local) s es)
  KeepsMachine-merge_peers local s [] h = (refl, h)
  KeepsMachine-merge_peers local s (e ∷ es) h =
      let one = KeepsMachine-merge_peer local s e h in
      let rest = KeepsMachine-merge_peers local (merge_peer local s e) es one.1 in
      (rest.0 ∙ one.0, rest.1)

  adopted_repo :
      (s : MeshState E) (gone : List Text) (name : Text) (r : MeshRepo)
      → KeepsRepos s
      → KeepsRepos
          (apply_removal (record s { mesh_repos = insert name r s.mesh_repos }) gone name r).0
  adopted_repo s gone name r k = elim (Bool-cases (is_some (repo_id r))) [
    | inl live ↦
        rw (live, apply_removal)
          (record {
            repos_sorted = k.repos_sorted;
            registered = λ other here.
                ground (arith, get-insert other name r s.mesh_repos, k.registered other);
            claims_version = k.claims_version;
            claims_valid = k.claims_valid;
            claims_sorted = k.claims_sorted;
          })
    | inr dead ↦
        rw (dead, apply_removal)
          (unregister-KeepsRepos (record s { mesh_repos = insert name r s.mesh_repos }) name
            s.mesh_repos k.registered
            (λ other ne.
              ground (arith, get-insert other name r s.mesh_repos, text_eq_sound name other))
            k.repos_sorted k.claims_version k.claims_valid k.claims_sorted)
  ]

  KeepsRepos-merge_repo :
      (p : MeshState E × List Text) (e : Text × MeshRepo)
      → KeepsRepos p.0
      → KeepsRepos (merge_repo p e).0
  unfolding merge_repo
  KeepsRepos-merge_repo (s, gone) (name, r) k =
      elim (Bool-cases
        (not (is_ok (validate_name Kind.repo name)) || leb max_record_version r.version)) [
          | inl skipped ↦ rw (skipped, merge_repo) k
          | inr fine ↦ elim (Bool-cases (should_adopt s.mesh_repos name r max_mesh_repos)) [
            | inl adopted ↦ rw (fine, adopted, merge_repo) (adopted_repo s gone name r k)
            | inr refused ↦ rw (fine, refused, merge_repo) k
          ]
        ]

  pub KeepsRepos-merge_repos :
      (p : MeshState E × List Text) (es : List (Text × MeshRepo))
      → KeepsRepos p.0
      → KeepsRepos (foldl merge_repo p es).0
  KeepsRepos-merge_repos p [] k = k
  KeepsRepos-merge_repos p (e ∷ es) k =
      KeepsRepos-merge_repos (merge_repo p e) es (KeepsRepos-merge_repo p e k)

  -- The invariant of the loop over the claims; `others` is exact.
  pub record KeepsClaims (s : MeshState E) (others : ℕ) : Type 0 where
    pub own_version : s.claims.version < max_record_version
    pub own_valid : is_valid s.claims ≡ true
    pub own_sorted : Sorted s.claims.repos
    pub sorted : Sorted s.peer_claims
    pub all_ok : AllEntries (λ k c. claim_ok c) s.peer_claims
    pub counted : total_claims s.peer_claims ≡ others
    pub capped : others ≤ max_other_workspaces

  KeepsClaims-merge_claim :
      (local : E) (p : MeshState E × ℕ) (e : E × WorkspaceClaims)
      → KeepsClaims p.0 p.1
      → KeepsClaims (merge_claim local p e).0 (merge_claim local p e).1
  unfolding merge_claim
  KeepsClaims-merge_claim local (s, others) (endpoint, r) k =
      elim (Bool-cases (leb max_record_version r.version)) [
        | inl high ↦ rw (high, merge_claim) k
        | inr low ↦ elim (Bool-cases (eqb endpoint local)) [
          | inl ours ↦
              let seen = observed_ok s.claims r k.own_version in
              rw (low, ours, merge_claim)
                (record {
                  own_version = seen.0;
                  own_valid = seen.2 ∙ k.own_valid;
                  own_sorted = rw seen.1 k.own_sorted;
                  sorted = k.sorted;
                  all_ok = k.all_ok;
                  counted = k.counted;
                  capped = k.capped;
                })
          | inr theirs ↦ elim (Bool-cases (refuses s endpoint r)) [
            | inl refused ↦ rw (low, theirs, refused, merge_claim) k
            | inr wanted ↦
                elim (Bool-cases (ltb max_other_workspaces (adopted_count s others endpoint r))) [
                  | inl full ↦ rw (low, theirs, wanted, full, merge_claim) k
                  | inr fits ↦
                      let held = measured-le-total count endpoint s.peer_claims in
                      let sum = total-insert count endpoint r s.peer_claims k.sorted in
                      let exact = k.counted in
                      rw (low, theirs, wanted, fits, merge_claim)
                        (record {
                          own_version = k.own_version;
                          own_valid = k.own_valid;
                          own_sorted = k.own_sorted;
                          sorted = insert-Sorted endpoint r s.peer_claims k.sorted;
                          all_ok =
                              insert-AllEntries (λ k c. claim_ok c) endpoint r s.peer_claims
                                (ground arith) k.all_ok;
                          counted = omega arith;
                          capped = ground arith;
                        })
                ]
          ]
        ]
      ]

  pub KeepsClaims-merge_claims :
      (local : E) (p : MeshState E × ℕ) (es : List (E × WorkspaceClaims))
      → KeepsClaims p.0 p.1
      → KeepsClaims (foldl (merge_claim local) p es).0 (foldl (merge_claim local) p es).1
  KeepsClaims-merge_claims local p [] k = k
  KeepsClaims-merge_claims local p (e ∷ es) k =
      KeepsClaims-merge_claims local (merge_claim local p e) es
        (KeepsClaims-merge_claim local p e k)
