-- ===== src/Config/Membership/Versions.antt =====
-- What `next_version` and `bumped_version` give out.
use jj_mesh.Prelude.{
  ok, BTreeMap, get, Ord, nat_ord, bool_ord, pair_ord, list_ord, option_ord, reverse_ord, ℕ, ◌+◌,
  ◌-◌, ◌<◌, ◌≡◌, ◌↔◌, ◌⊎◌, some, arith,
}
use jj_mesh.Config.Membership.Register.{
  max_record_version, u64_mod, add_u64, next_version, version_or_zero, bumped_version, Register,
}

next_version_split :
    (v w : ℕ) → next_version v ≡ ok w → (w ≡ add_u64 v 1) × (w < max_record_version)
unfolding next_version
next_version_split v w h = ground arith

-- For every `u64`: the next version is one more and stays below the ceiling, or the version was
-- `u64::MAX`, whose successor wraps to 0 and passes the test.
pub next_version_iff :
    (v w : ℕ)
    → v < u64_mod
    → (next_version v ≡ ok w)
      ↔ ((w ≡ v + 1) × (w < max_record_version) ⊎ (v ≡ u64_mod - 1) × (w ≡ 0))
unfolding next_version
next_version_iff v w h = (λ k. ground (arith, next_version_split v w k), λ k. ground arith)

-- A version below the ceiling is followed by its successor, or by an error next to the ceiling.
pub next_version-eq :
    (v w : ℕ)
    → v < max_record_version
    → next_version v ≡ ok w
    → (w ≡ v + 1) × (w < max_record_version)
next_version-eq v w h k = ground (arith, next_version_split v w k)

pub next_version_ok : (v : ℕ) → v + 1 < max_record_version → next_version v ≡ ok (v + 1)
unfolding next_version
next_version_ok v h = ground arith

pub next_version-lt : (v w : ℕ) → next_version v ≡ ok w → w < max_record_version
next_version-lt v w k = (next_version_split v w k).1

module _ {K V : Type 0} ⦃o : Ord K⦄ ⦃r : Register V⦄ where
  pub bumped_version-lt :
      (m : BTreeMap K V) (k : K) (v : ℕ) → bumped_version m k ≡ ok v → v < max_record_version
  unfolding bumped_version
  bumped_version-lt m k v h = next_version-lt (version_or_zero (get k m)) v h

  -- A bumped record is newer than the one that is held.
  pub bumped_version-newer :
      (m : BTreeMap K V) (k : K) (v : ℕ) (a : V)
      → get k m ≡ some a
      → r.version a < max_record_version
      → bumped_version m k ≡ ok v
      → r.version a < v
  unfolding bumped_version
  bumped_version-newer m k v a g h e = omega (arith, next_version-eq (r.version a) v h (rw g at e))
