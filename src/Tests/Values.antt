-- ===== src/Tests/Values.antt =====
-- Names, records, claims and backoff at concrete values.
use jj_mesh.Prelude.{
  ok, get, insert, nat_ord, bool_ord, pair_ord, list_ord, option_ord, reverse_ord, length, ℕ, ◌+◌,
  ◌-◌, ◌≤◌, ◌<◌, ◌≡◌, refl, ◌↔◌, ◌⊎◌, [], ◌∷◌, arith,
}
use jj_mesh.Config.Name.{
  is_confusable, validate_name, sanitize_bounded, IsClean, sanitize_bounded_safe,
}
use jj_mesh.Config.Membership.Register.{max_record_version, u64_mod, next_version}
use jj_mesh.Config.Membership.Versions.{next_version_iff}
use jj_mesh.Config.Membership.Peers.{peer_register}
use jj_mesh.Config.Membership.Repos.{repo_register}
use jj_mesh.Config.Claims.{WorkspaceClaims, no_claims, claims_register, is_valid, set_claims}
use jj_mesh.Daemon.Backoff.{new_backoff, Backoff}
use jj_mesh.Tests.Data.{bob, docs, docs_id}

abbrev bob_claims : WorkspaceClaims
bob_claims = record { version = 1; repos = (docs_id, bob ∷ []) ∷ [] }

claim_bob : set_claims no_claims docs_id (bob ∷ []) ≡ ok bob_claims
unfolding set_claims is_valid next_version get insert validate_name is_confusable
claim_bob = refl

abbrev zero_version : ℕ
zero_version = 0

abbrev last_version : ℕ
last_version = u64_mod - 1

next_version_iff_example : (next_version last_version ≡ ok zero_version) ↔ (
    (zero_version ≡ last_version + 1) × (zero_version < max_record_version)
    ⊎ (last_version ≡ u64_mod - 1) × (zero_version ≡ 0))
next_version_iff_example = next_version_iff last_version zero_version (omega arith)

sanitize_bounded_safe_example :
    IsClean (sanitize_bounded (0x1b ∷ docs))
    × (length (sanitize_bounded (0x1b ∷ docs)) ≤ 257)
    × (sanitize_bounded (sanitize_bounded (0x1b ∷ docs)) ≡ sanitize_bounded (0x1b ∷ docs))
sanitize_bounded_safe_example = sanitize_bounded_safe (0x1b ∷ docs)

abbrev retries : Backoff
retries = new_backoff 1 60
