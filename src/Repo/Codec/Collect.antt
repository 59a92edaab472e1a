-- ===== src/Repo/Codec/Collect.antt =====
-- What a step of the collector does: it adds these ids, or fails where this test fails.
use jj_mesh.Prelude.{
  ◌>>=◌, ◌>>◌, ensure, is_ok, Result, ok, err, nat_ord, bool_ord, pair_ord, list_ord, option_ord,
  reverse_ord, ◌==◌, Bool-cases, length, all, ◌+◌, ◌≡◌, refl, ◌⊎◌, inl, inr, Bool, true, false,
  ◌&&◌, Option, none, some, List, [], ◌∷◌, ◌++◌, arith,
}
use jj_mesh.Config.Membership.Peers.{peer_register}
use jj_mesh.Config.Membership.Repos.{repo_register}
use jj_mesh.Config.Claims.{claims_register}
use jj_mesh.Repo.Codec.Messages.{CommitId, CodecError, no_value, TargetValue, RefTarget}
use jj_mesh.Repo.Codec.Ids.{IdSet, add, add_all, terms_of, add_value, add_present, add_target}
use jj_mesh.Repo.Codec.Views.{each}

-- Ids are added in order to a set.
pub add_all-append :
    (ids : IdSet) (xs ys : List CommitId) → add_all ids (xs ++ ys) ≡ add_all (add_all ids xs) ys
unfolding add_all
add_all-append ids [] ys = refl
add_all-append ids (x ∷ xs) ys = add_all-append (add ids x) xs ys

pub add_all-cons :
    (ids : IdSet) (id : CommitId) (xs : List CommitId)
    → add_all ids (id ∷ xs) ≡ add_all (add ids id) xs
unfolding add_all
add_all-cons ids id xs = refl

pub record Collects (r : Result CodecError IdSet) (ids : IdSet) (test : Bool) (new : List CommitId)
    : Type 0 where
  pub outcome : (test ≡ true) × (r ≡ ok (add_all ids new)) ⊎ (test ≡ false) × (is_ok r ≡ false)

pub succeeds :
    (r : Result CodecError IdSet) (ids : IdSet) (new : List CommitId)
    → r ≡ ok (add_all ids new)
    → Collects r ids true new
succeeds r ids new h = record { outcome = inl (refl, h) }

pub fails :
    (r : Result CodecError IdSet) (ids : IdSet) (new : List CommitId)
    → is_ok r ≡ false
    → Collects r ids false new
fails r ids new h = record { outcome = inr (refl, h) }

pub stays_failed :
    {B : Type 0} (r : Result CodecError IdSet) (f : IdSet → Result CodecError B)
    → is_ok r ≡ false
    → is_ok (r >>= f) ≡ false
stays_failed (ok a) f h = ground arith
stays_failed (err e) f h = refl

-- The first step succeeds and the second follows.
then_outcome :
    (ids : IdSet) (xs ys : List CommitId) (r : Result CodecError IdSet) {q : Bool}
    → Collects r (add_all ids xs) q ys
    → Collects r ids q (xs ++ ys)
then_outcome ids xs ys r c = record { outcome = rw (add_all-append ids xs ys) c.outcome }

pub Collects-bind :
    (r : Result CodecError IdSet) (f : IdSet → Result CodecError IdSet) (ids : IdSet) {p q : Bool}
    {xs ys : List CommitId}
    → Collects r ids p xs
    → ((mid : IdSet) → Collects (f mid) mid q ys)
    → Collects (r >>= f) ids (p && q) (xs ++ ys)
Collects-bind r f ids {p} {q} {xs} {ys} c h = elim c.outcome [
  | inl done ↦
      rw (done.0, done.1) (then_outcome ids xs ys (f (add_all ids xs)) (h (add_all ids xs)))
  | inr lost ↦ rw lost.0 (fails (r >>= f) ids (xs ++ ys) (stays_failed r f lost.1))
]

pub Collects-ensure :
    (test : Bool) (e : CodecError) (r : Result CodecError IdSet) (ids : IdSet) {q : Bool}
    {ys : List CommitId}
    → Collects r ids q ys
    → Collects (ensure test e >> r) ids (test && q) ys
Collects-ensure true e r ids c = c
Collects-ensure false e r ids {q} {ys} c = fails (err e) ids ys refl

-- The ids of all the elements
abbrev pub all_of : {A : Type 0} → (A → List CommitId) → List A → List CommitId
all_of new [] = []
all_of new (x ∷ xs) = new x ++ all_of new xs

pub Collects-each :
    {A : Type 0} (f : IdSet → A → Result CodecError IdSet) (test : A → Bool)
    (new : A → List CommitId)
    → ((ids : IdSet) (a : A) → Collects (f ids a) ids (test a) (new a))
    → (ids : IdSet) (xs : List A) → Collects (each f ids xs) ids (all test xs) (all_of new xs)
unfolding add_all
Collects-each f test new h ids [] = succeeds (ok ids) ids [] refl
Collects-each f test new h ids (x ∷ xs) =
    Collects-bind (f ids x) (λ mid. each f mid xs) ids (h ids x)
      (λ mid. Collects-each f test new h mid xs)

-- The ids of a target, and whether jj reads it
abbrev pub value_ids : TargetValue → List CommitId
value_ids (TargetValue.commit id) = id ∷ []
value_ids (TargetValue.conflict_legacy removes adds) = removes ++ adds
value_ids (TargetValue.conflict removes adds) = terms_of (removes ++ adds)

abbrev pub value_readable : TargetValue → Bool
value_readable (TargetValue.conflict removes adds) = length adds == length removes + 1
value_readable _ = true

abbrev pub target_ids : Option RefTarget → List CommitId
target_ids none = []
target_ids (some target) = elim target.value [ none ↦ [] | some value ↦ value_ids value ]

abbrev pub target_readable : Option RefTarget → Bool
target_readable none = true
target_readable (some target) = elim target.value [
  | none ↦ false
  | some value ↦ value_readable value
]

add_value-Collects :
    (ids : IdSet) (value : TargetValue)
    → Collects (add_value ids value) ids (value_readable value) (value_ids value)
unfolding add_all
add_value-Collects ids (TargetValue.commit id) = succeeds (ok (add ids id)) ids (id ∷ []) refl
add_value-Collects ids (TargetValue.conflict_legacy removes adds) =
    succeeds (ok (add_all ids (removes ++ adds))) ids (removes ++ adds) refl
add_value-Collects ids (TargetValue.conflict removes adds) =
    elim (Bool-cases (length adds == length removes + 1)) [
      | inl balanced ↦ record { outcome = ground arith }
      | inr unbalanced ↦ record { outcome = ground arith }
    ]

pub add_target-Collects :
    (ids : IdSet) (target : Option RefTarget)
    → Collects (add_target ids target) ids (target_readable target) (target_ids target)
unfolding add_all
add_target-Collects ids none = succeeds (ok ids) ids [] refl
add_target-Collects ids (some target) = present target.value
  where
    present :
        (value : Option TargetValue)
        → Collects
            (add_present ids value)
            ids
            (elim value [ none ↦ false | some v ↦ value_readable v ])
            (elim value [ none ↦ [] | some v ↦ value_ids v ])
    present none = fails (err no_value) ids [] refl
    present (some value) = add_value-Collects ids value

-- The two outcomes, by the test
pub Collects-cases :
    (r : Result CodecError IdSet) (ids : IdSet) (test : Bool) (new : List CommitId)
    → Collects r ids test new
    → (test ≡ true → r ≡ ok (add_all ids new)) × (test ≡ false → is_ok r ≡ false)
Collects-cases r ids test new c = elim c.outcome [
  | inl done ↦ (λ h. done.1, λ h. ground arith)
  | inr lost ↦ (λ h. ground arith, λ h. lost.1)
]
