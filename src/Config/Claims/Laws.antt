-- ===== src/Config/Claims/Laws.antt =====
-- The ranking of claims, and what setting and releasing claims does.
use jj_mesh.Prelude.{
  ensure, is_ok, >>=-eq-ok, ensure-eq-ok, ok, total-remove-le, BTreeMap, get, remove, Sorted,
  get-insert, get-remove, insert-Sorted, remove-Sorted, eqb_refl, eqb_sound, gtb_irrefl, gtb_trans,
  gtb_total, nat_ord, bool_ord, pair_ord, list_ord, option_ord, reverse_ord, Bool-cases, length, ℕ,
  ◌+◌, ◌<◌, ◌≡◌, refl, ◌∙◌, ◌≢◌, ◌⊎◌, inl, inr, Bool, true, Option, none, some, List, [], ◌∷◌,
  arith,
}
use jj_mesh.Config.Error.{invalid_claims}
use jj_mesh.Config.Name.{Text}
use jj_mesh.Config.RepoId.{RepoId}
use jj_mesh.Config.Membership.Register.{max_record_version, next_version}
use jj_mesh.Config.Membership.Versions.{next_version-eq, next_version_ok}
use jj_mesh.Config.Membership.Peers.{peer_register}
use jj_mesh.Config.Membership.Repos.{repo_register}
use jj_mesh.Config.Membership.Ranking.{IsRanked}
use jj_mesh.Config.Claims.Defs.{
  names_valid, all_values, is_valid, unchanged, updated, set_claims, claims_rank, claims_outranks,
  claims_register, names_of, WorkspaceClaims,
}

claims_rank_injective : (c d : WorkspaceClaims) → claims_rank c ≡ claims_rank d → c ≡ d
claims_rank_injective c d h = ground arith

pub claims-IsRanked : IsRanked claims_register
unfolding claims_outranks
claims-IsRanked = record {
  irrefl = λ a. gtb_irrefl (claims_rank a);
  trans = λ a b c. gtb_trans (claims_rank a) (claims_rank b) (claims_rank c);
  total = λ a b h k. claims_rank_injective a b (gtb_total (claims_rank a) (claims_rank b) h k);
  versioned = λ a b h. ground arith;
}

unchanged_names :
    (held : Option (List Text)) (names : List Text)
    → unchanged held names ≡ true
    → names_of held ≡ names
unchanged_names none [] h = refl
unchanged_names none (n ∷ names) h = cc
unchanged_names (some held) names h = eqb_sound ⦃o = list_ord⦄ held names h

get-updated_self :
    (m : BTreeMap RepoId (List Text)) (repo : RepoId) (names : List Text)
    → names_of (get repo (updated m repo names)) ≡ names
get-updated_self m repo [] = rw (get-remove, eqb_refl)
get-updated_self m repo (n ∷ names) = rw (get-insert, eqb_refl)

get-updated_ne :
    (m : BTreeMap RepoId (List Text)) (repo other : RepoId) (names : List Text)
    → repo ≢ other
    → get other (updated m repo names) ≡ get other m
get-updated_ne m repo other [] ne = ground (arith, get-remove other repo m, eqb_sound repo other)
get-updated_ne m repo other (n ∷ names) ne =
    ground (arith, get-insert other repo (n ∷ names) m, eqb_sound repo other)

is_valid_version :
    (c : WorkspaceClaims) (w : ℕ) (m : BTreeMap RepoId (List Text))
    → is_valid (record { version = w; repos = m }) ≡ is_valid (record c { repos = m })
unfolding is_valid
is_valid_version c w m = refl

-- Setting the claims of one repo either changes nothing, or gives valid claims that outrank the old
-- ones and differ from them at that repo only.
pub set_claims_lem :
    (c : WorkspaceClaims) (repo : RepoId) (names : List Text) {d : WorkspaceClaims}
    → c.version < max_record_version
    → set_claims c repo names ≡ ok d
    → ((d ≡ c) ⊎ (is_valid d ≡ true) × (claims_outranks d c ≡ true))
      × (names_of (get repo d.repos) ≡ names)
      × ((other : RepoId) → repo ≢ other → get other d.repos ≡ get other c.repos)
      × (d.version < max_record_version)
unfolding set_claims
set_claims_lem c repo names {d} h k = elim (Bool-cases (unchanged (get repo c.repos) names)) [
  | inl same ↦
      let e : d ≡ c = ground arith in
      rw e (inl refl, unchanged_names (get repo c.repos) names same, λ other ne. refl, h)
  | inr differs ↦
      let (u, valid, rest) =
        >>=-eq-ok
          (ensure (is_valid (record c { repos = updated c.repos repo names })) invalid_claims) _
          (rw differs at k) in
      let (w, next, done) = >>=-eq-ok (next_version c.version) _ rest in
      let bounds = next_version-eq c.version w h next in
      let e : record { version = w; repos = updated c.repos repo names } ≡ d = ground arith in
      rw (← e) (
        inr (
          (is_valid_version c w (updated c.repos repo names)
              ∙ ensure-eq-ok (is_valid (record c { repos = updated c.repos repo names }))
                  invalid_claims valid),
          claims-IsRanked.versioned (record { version = w; repos = updated c.repos repo names }) c
              (omega arith),
        ),
        get-updated_self c.repos repo names,
        λ other ne. get-updated_ne c.repos repo other names ne,
        bounds.1,
      )
]

all_values-remove :
    (p : List Text → Bool) (repo : RepoId) (m : BTreeMap RepoId (List Text))
    → all_values p m ≡ true
    → all_values p (remove repo m) ≡ true
unfolding remove
all_values-remove p repo [] h = refl
all_values-remove p repo (e ∷ m) h = ground (arith, all_values-remove p repo m)

pub release_valid :
    (c : WorkspaceClaims) (repo : RepoId)
    → is_valid c ≡ true
    → is_valid (record c { repos = remove repo c.repos }) ≡ true
unfolding is_valid
release_valid c repo v =
    ground (arith, total-remove-le length repo c.repos, all_values-remove names_valid repo c.repos)

-- Releasing the claims of a repo always succeeds below the ceiling.
pub set_claims_release :
    (c : WorkspaceClaims) (repo : RepoId)
    → is_valid c ≡ true
    → c.version + 1 < max_record_version
    → is_ok (set_claims c repo []) ≡ true
unfolding set_claims
set_claims_release c repo v h = ground (arith, release_valid c repo v, next_version_ok c.version h)

pub set_claims-Sorted :
    (c : WorkspaceClaims) (repo : RepoId) (names : List Text) {d : WorkspaceClaims}
    → Sorted c.repos
    → set_claims c repo names ≡ ok d
    → Sorted d.repos
unfolding set_claims
set_claims-Sorted c repo names s h =
    ground (arith, insert-Sorted repo names c.repos s, remove-Sorted repo c.repos s)
