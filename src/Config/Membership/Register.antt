-- ===== src/Config/Membership/Register.antt =====
-- The `Register` trait, its version arithmetic and the adoption rule.
use jj_mesh.Prelude.{
  ℕ, ◌+◌, ◌%◌, Bool, Option, none, some, ltb, length, Result, ok, ensure, ◌>>◌, BTreeMap, Ord, get,
}
use jj_mesh.Config.Error.{Error, corrupted_record}

abbrev pub max_mesh_peers : ℕ
max_mesh_peers = 256

abbrev pub max_other_peers : ℕ
max_other_peers = 255

abbrev pub max_mesh_repos : ℕ
max_mesh_repos = 1024

-- `1 << 32`
abbrev pub max_record_version : ℕ
max_record_version = 4294967296

abbrev pub u64_mod : ℕ
u64_mod = 18446744073709551616

-- `a + b` on `u64`, in the release profile, which wraps.
abbrev pub add_u64 : ℕ → ℕ → ℕ
add_u64 a b = (a + b) % u64_mod

pub record Register (V : Type 0) : Type 0 where
  pub version : V → ℕ
  pub outranks : V → V → Bool

-- The version after `version`; refuses to reach the ceiling.
unfoldable pub next_version : ℕ → Result Error ℕ
next_version version = do
  ensure (ltb (add_u64 version 1) max_record_version) corrupted_record
  ok (add_u64 version 1)

-- `map_or(0, V::version)`
abbrev pub version_or_zero : {V : Type 0} ⦃r : Register V⦄ → Option V → ℕ
version_or_zero none = 0
version_or_zero ⦃r⦄ (some v) = r.version v

module _ {K V : Type 0} ⦃o : Ord K⦄ ⦃r : Register V⦄ where
  unfoldable pub bumped_version : BTreeMap K V → K → Result Error ℕ
  unfolding next_version
  bumped_version map key = next_version (version_or_zero (get key map))

  -- A known key is replaced by a record that outranks it; a new one needs room below the cap.
  unfoldable pub should_adopt : BTreeMap K V → K → V → ℕ → Bool
  should_adopt map key record' cap = elim (get key map) [
    | none ↦ ltb (length map) cap
    | some ours ↦ r.outranks record' ours
  ]
