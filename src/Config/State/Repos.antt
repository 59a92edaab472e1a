-- ===== src/Config/State/Repos.antt =====
-- `unregister_repo` and the release of claims.
use mathlib.Core.Bool.{false≢true}
use jj_mesh.Prelude.{
  is_ok, Result-cases, BTreeMap, get, contains_key, remove, Sorted, get-remove, remove-Sorted, eqb,
  eqb_refl, Ord, nat_ord, bool_ord, pair_ord, list_ord, option_ord, reverse_ord, is_some,
  Bool-cases, Option-cases, ◌+◌, ◌<◌, ◌≡◌, sym, ap, ◌∙◌, ◌≢◌, inl, inr, true, none, [], arith,
}
use jj_mesh.Config.Name.{Text}
use jj_mesh.Config.RepoId.{RepoId, Repo}
use jj_mesh.Config.Membership.Register.{max_record_version}
use jj_mesh.Config.Membership.Peers.{peer_register}
use jj_mesh.Config.Membership.Repos.{repo_register, MeshRepo}
use jj_mesh.Config.Claims.{
  WorkspaceClaims, claims_register, names_of, is_valid, set_claims, set_claims_lem,
  set_claims_release, set_claims-Sorted,
}
use jj_mesh.Config.State.Defs.{MeshState}
use jj_mesh.Config.State.Ops.{released, unregister_repo}
use jj_mesh.Config.State.WellFormed.{IsRegistered}

-- The claims after a release are well-formed like the ones before.
pub released_ok :
    (c : WorkspaceClaims) (id : RepoId)
    → c.version < max_record_version
    → is_valid c ≡ true
    → ((released c id).version < max_record_version) × (is_valid (released c id) ≡ true)
released_ok c id h valid = elim (Result-cases (set_claims c id [])) [
  | inl (d, done) ↦
      let facts = set_claims_lem c id [] h done in
      rw (done, released)
        (facts.3, elim facts.0 [ inl same ↦ rw same valid | inr changed ↦ changed.0 ])
  | inr (e, failed) ↦ rw (failed, released) (h, valid)
]

pub released_empty :
    (c : WorkspaceClaims) (id : RepoId)
    → is_valid c ≡ true
    → c.version + 1 < max_record_version
    → names_of (get id (released c id).repos) ≡ []
released_empty c id valid h = elim (Result-cases (set_claims c id [])) [
  | inl (d, done) ↦ rw (done, released) (set_claims_lem c id [] (omega arith) done).1
  | inr (e, failed) ↦ absurd (false≢true (ap is_ok (sym failed) ∙ set_claims_release c id valid h))
]

released-Sorted :
    (c : WorkspaceClaims) (id : RepoId) → Sorted c.repos → Sorted (released c id).repos
released-Sorted c id s = elim (Result-cases (set_claims c id [])) [
  | inl (d, done) ↦ rw (done, released) (set_claims-Sorted c id [] s done)
  | inr (e, failed) ↦ rw (failed, released) s
]

IsRegistered-remove :
    (name : Text) (repos : BTreeMap Text Repo) (mesh mesh' : BTreeMap Text MeshRepo)
    → IsRegistered repos mesh
    → ((other : Text) → other ≢ name → get other mesh' ≡ get other mesh)
    → IsRegistered (remove name repos) mesh'
IsRegistered-remove name repos mesh mesh' reg same other here =
    let g = get-remove other name repos in
    elim (Bool-cases (eqb ⦃o = list_ord⦄ name other)) [
      | inl gone ↦ absurd (false≢true (ground arith))
      | inr there ↦
          let ne : other ≢ name = λ e. ground (arith, eqb_refl ⦃o = list_ord⦄ name) in
          rw (same other ne) (reg other (ground arith))
    ]

IsRegistered-absent :
    (name : Text) (repos : BTreeMap Text Repo) (mesh mesh' : BTreeMap Text MeshRepo)
    → IsRegistered repos mesh
    → ((other : Text) → other ≢ name → get other mesh' ≡ get other mesh)
    → get name repos ≡ none
    → IsRegistered repos mesh'
IsRegistered-absent name repos mesh mesh' reg same absent other here =
    let ne : other ≢ name =
      λ e. false≢true (ap is_some (sym absent) ∙ ap (λ k. contains_key k repos) (sym e) ∙ here) in
    rw (same other ne) (reg other here)

module _ {E : Type 0} ⦃oe : Ord E⦄ where
  -- The invariant on repos and claims, for a list of mesh repos
  pub record KeepsRepos (s : MeshState E) : Type 0 where
    pub repos_sorted : Sorted s.repos
    pub registered : IsRegistered s.repos s.mesh_repos
    pub claims_version : s.claims.version < max_record_version
    pub claims_valid : is_valid s.claims ≡ true
    pub claims_sorted : Sorted s.claims.repos

  -- Unregistering a name, after a change to the mesh record of that name only
  pub unregister-KeepsRepos :
      (s : MeshState E) (name : Text) (mesh : BTreeMap Text MeshRepo)
      → IsRegistered s.repos mesh
      → ((other : Text) → other ≢ name → get other s.mesh_repos ≡ get other mesh)
      → Sorted s.repos
      → s.claims.version < max_record_version
      → is_valid s.claims ≡ true
      → Sorted s.claims.repos
      → KeepsRepos (unregister_repo s name).0
  unfolding unregister_repo
  unregister-KeepsRepos s name mesh reg same sorted h valid cs =
      elim (Option-cases (get name s.repos)) [
        | inl absent ↦
            rw (absent, unregister_repo)
              (record {
                repos_sorted = sorted;
                registered = IsRegistered-absent name s.repos mesh s.mesh_repos reg same absent;
                claims_version = h;
                claims_valid = valid;
                claims_sorted = cs;
              })
        | inr (r, held) ↦
            let claims' = released_ok s.claims r.id h valid in
            rw (held, unregister_repo)
              (record {
                repos_sorted = remove-Sorted name s.repos sorted;
                registered = IsRegistered-remove name s.repos mesh s.mesh_repos reg same;
                claims_version = claims'.0;
                claims_valid = claims'.1;
                claims_sorted = released-Sorted s.claims r.id cs;
              })
      ]
