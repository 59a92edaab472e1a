-- ===== src/Config/State/ClaimLimits.antt =====
-- `repo_claims` and `set_claims`: the limit on the workspaces of a repo.
use jj_mesh.Prelude.{
  ok, total-insert, measured-le-total, BTreeMap, get, insert, Sorted, Ord, nat_ord, bool_ord,
  pair_ord, list_ord, option_ord, reverse_ord, is_some, Bool-cases, length, all, ℕ, ◌+◌, ◌≤◌, ◌<◌,
  ◌≡◌, refl, ap, ◌≢◌, inl, inr, Bool, true, List, [], ◌∷◌, arith,
}
use jj_mesh.Config.Name.{Text}
use jj_mesh.Config.RepoId.{RepoId}
use jj_mesh.Config.Membership.Register.{max_record_version}
use jj_mesh.Config.Membership.Versions.{next_version_ok}
use jj_mesh.Config.Membership.Peers.{peer_register}
use jj_mesh.Config.Membership.Repos.{repo_register}
use jj_mesh.Config.Claims.{
  WorkspaceClaims, count, max_machine_workspaces, claims_register, names_of, workspace_name,
  updated, all_values, names_valid, unchanged, is_valid, set_claims, set_claims_lem, release_valid,
}
use jj_mesh.Config.State.Defs.{sub_usize, repo_name, repo_claims, MeshState}
use jj_mesh.Config.State.Ops.{set_repo_claims}
use jj_mesh.Config.State.WellFormed.{IsWellFormed}

all_values-insert :
    (p : List Text → Bool) (repo : RepoId) (names : List Text) (m : BTreeMap RepoId (List Text))
    → p names ≡ true
    → all_values p m ≡ true
    → all_values p (insert repo names m) ≡ true
unfolding insert
all_values-insert p repo names [] h a = ground arith
all_values-insert p repo names (e ∷ m) h a = ground (arith, all_values-insert p repo names m h)

valid_update :
    (c : WorkspaceClaims) (repo : RepoId) (names : List Text)
    → Sorted c.repos
    → is_valid c ≡ true
    → all workspace_name names ≡ true
    → count c + length names ≤ max_machine_workspaces + length (names_of (get repo c.repos))
    → is_valid (record c { repos = updated c.repos repo names }) ≡ true
unfolding is_valid
valid_update c repo [] s v a h = release_valid c repo v
valid_update c repo (n ∷ names) s v a h = ground (
  arith,
  total-insert length repo (n ∷ names) c.repos s,
  all_values-insert names_valid repo (n ∷ names) c.repos,
)

set_claims_ok :
    (c : WorkspaceClaims) (repo : RepoId) (names : List Text)
    → is_valid (record c { repos = updated c.repos repo names }) ≡ true
    → c.version + 1 < max_record_version
    → (d : WorkspaceClaims) × (set_claims c repo names ≡ ok d)
unfolding set_claims
set_claims_ok c repo names valid h = elim (Bool-cases (unchanged (get repo c.repos) names)) [
  | inl same ↦ (c, rw same)
  | inr differs ↦ (
    record { version = c.version + 1; repos = updated c.repos repo names },
    rw (differs, valid, next_version_ok c.version h),
  )
]

limit_arith :
    (total ours : ℕ)
    → total ≤ max_machine_workspaces
    → ours ≤ total
    → (sub_usize max_machine_workspaces (sub_usize total ours) + total
        ≡ max_machine_workspaces + ours)
      × (ours ≤ sub_usize max_machine_workspaces (sub_usize total ours))
limit_arith total ours h k = omega arith

module _ {E : Type 0} ⦃oe : Ord E⦄ where
  -- What is claimed on a repo and the limit: the claims of the other repos use up the rest.
  pub repo_claims_limit :
      (local : E) (s : MeshState E) (id : RepoId)
      → IsWellFormed local s
      → ((repo_claims s id).limit + count s.claims
          ≡ max_machine_workspaces + length (repo_claims s id).ours)
        × (length (repo_claims s id).ours ≤ (repo_claims s id).limit)
  unfolding repo_claims is_valid
  repo_claims_limit local s id w =
      let valid = w.claims_valid in
      let held = measured-le-total length id s.claims.repos in
      limit_arith (count s.claims) (length (names_of (get id s.claims.repos))) (ground arith)
        (ground arith)

  repo_claims-ours :
      (s : MeshState E) (id : RepoId) → (repo_claims s id).ours ≡ names_of (get id s.claims.repos)
  unfolding repo_claims
  repo_claims-ours s id = refl

  -- A registered repo whose task claims valid names within the limit that it was told always gets them,
  -- below the version ceiling.
  pub set_repo_claims_within_limit :
      (local : E) (s : MeshState E) (id : RepoId) (names : List Text)
      → IsWellFormed local s
      → is_some (repo_name s id) ≡ true
      → all workspace_name names ≡ true
      → length names ≤ (repo_claims s id).limit
      → s.claims.version + 1 < max_record_version
      → (t : MeshState E) × (set_repo_claims s id names ≡ ok t)
        × (names_of (get id t.claims.repos) ≡ names)
        × ((other : RepoId) → id ≢ other → get other t.claims.repos ≡ get other s.claims.repos)
  unfolding set_repo_claims
  set_repo_claims_within_limit local s id names w reg valid room h =
      let limit = repo_claims_limit local s id w in
      let ours = ap length (repo_claims-ours s id) in
      let (d, done) =
        set_claims_ok s.claims id names
          (valid_update s.claims id names w.claims_sorted w.claims_valid valid (omega arith)) h in
      let facts = set_claims_lem s.claims id names w.claims_version done in
      (record s { claims = d }, rw (reg, done), facts.1, facts.2)
