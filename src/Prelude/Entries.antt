-- ===== src/Prelude/Entries.antt =====
-- Maps all of whose entries pass a test, and `BTreeMap::retain`.
use Prim.Native.Nat.{ℕ, ◌+◌, ◌≤◌}
use mathlib.Core.Path.{◌≡◌, refl}
use mathlib.Core.Bool.{Bool, true}
use mathlib.Core.Option.{Option, none, some}
use mathlib.Core.List.{List, [], ◌∷◌}
use native.Mathlib.Omega.{arith}
use jj_mesh.Prelude.Tests.{if◌then◌else◌}
use jj_mesh.Prelude.Lists.{length, All}
use jj_mesh.Prelude.Order.{
  eqb_sound, Ord, nat_ord, bool_ord, pair_ord, list_ord, option_ord, reverse_ord,
}
use jj_mesh.Prelude.Maps.{
  BTreeMap, retain, get, insert, remove, Above, Sorted, get-Above, get-cons-lt,
}

module _ {K V : Type 0} (p : K → V → Bool) where
  abbrev pub AllEntries : List (K × V) → Type 0
  AllEntries = All (λ e. p e.0 e.1 ≡ true)

module _ {K V : Type 0} {p q : K → V → Bool} where
  pub AllEntries-imp :
      ((k : K) (v : V) → p k v ≡ true → q k v ≡ true)
      → (m : BTreeMap K V) → AllEntries p m
      → AllEntries q m
  AllEntries-imp f [] a = tt
  AllEntries-imp f (e ∷ m) a = (f e.0 e.1 a.0, AllEntries-imp f m a.1)

module _ {K V : Type 0} (p : K → V → Bool) where
  pub retain-AllEntries_self : (m : BTreeMap K V) → AllEntries p (retain p m)
  unfolding retain
  retain-AllEntries_self [] = tt
  retain-AllEntries_self (e ∷ m) = ground (arith, retain-AllEntries_self m)

  pub retain-AllEntries :
      (q : K → V → Bool) (m : BTreeMap K V) → AllEntries p m → AllEntries p (retain q m)
  unfolding retain
  retain-AllEntries q [] a = tt
  retain-AllEntries q (e ∷ m) a = ground (arith, retain-AllEntries q m a.1)

  pub length-retain-le : (m : BTreeMap K V) → length (retain p m) ≤ length m
  unfolding retain
  length-retain-le [] = omega arith
  length-retain-le (e ∷ m) = ground (arith, length-retain-le m)

  module _ ⦃o : Ord K⦄ where
    pub insert-AllEntries :
        (k : K) (v : V) (m : BTreeMap K V)
        → p k v ≡ true
        → AllEntries p m
        → AllEntries p (insert k v m)
    unfolding insert
    insert-AllEntries k v [] h a = (h, tt)
    insert-AllEntries k v (e ∷ m) h a = ground (arith, insert-AllEntries k v m h a.1)

    pub remove-AllEntries : (k : K) (m : BTreeMap K V) → AllEntries p m → AllEntries p (remove k m)
    unfolding remove
    remove-AllEntries k [] a = tt
    remove-AllEntries k (e ∷ m) a = ground (arith, remove-AllEntries k m a.1)

    pub get-AllEntries :
        (k : K) (v : V) (m : BTreeMap K V) → AllEntries p m → get k m ≡ some v → p k v ≡ true
    unfolding get
    get-AllEntries k v [] a h = cc
    get-AllEntries k v (e ∷ m) a h = ground (arith, get-AllEntries k v m a.1, eqb_sound e.0 k)

    retain-Above : (k : K) (m : BTreeMap K V) → Above k m → Above k (retain p m)
    unfolding retain
    retain-Above k [] a = tt
    retain-Above k (e ∷ m) a = ground (arith, retain-Above k m a.1)

    pub retain-Sorted : (m : BTreeMap K V) → Sorted m → Sorted (retain p m)
    unfolding retain
    retain-Sorted [] s = tt
    retain-Sorted (e ∷ m) s = ground (arith, retain-Sorted m s.1, retain-Above e.0 m s.0)

    abbrev pub kept : K → Option V → Option V
    kept k none = none
    kept k (some v) = if p k v then some v else none

    pub get-retain : (k : K) (m : BTreeMap K V) → Sorted m → get k (retain p m) ≡ kept k (get k m)
    unfolding get retain
    get-retain k [] s = refl
    get-retain k (e ∷ m) s =
        ground (arith, get-retain k m s.1, get-Above e.0 m s.0, eqb_sound e.0 k)

-- The sum of a measure over the values of a map
module _ {K V : Type 0} (f : V → ℕ) where
  abbrev pub total : BTreeMap K V → ℕ
  total [] = 0
  total (e ∷ m) = f e.1 + total m

  pub total-retain-le : (p : K → V → Bool) (m : BTreeMap K V) → total (retain p m) ≤ total m
  unfolding retain
  total-retain-le p [] = omega arith
  total-retain-le p (e ∷ m) = ground (arith, total-retain-le p m)

abbrev pub measured : {V : Type 0} → (V → ℕ) → Option V → ℕ
measured f none = 0
measured f (some v) = f v

module _ {K V : Type 0} ⦃o : Ord K⦄ (f : V → ℕ) where
  pub total-insert :
      (k : K) (v : V) (m : BTreeMap K V)
      → Sorted m
      → total f (insert k v m) + measured f (get k m) ≡ total f m + f v
  unfolding insert get
  total-insert k v [] s = omega arith
  total-insert k v ((i, w) ∷ m) s = ground (
    arith,
    total-insert k v m s.1,
    get-cons-lt i k w m,
    o.cmp_eq i k,
    o.cmp_eq k i,
    o.cmp_flip k i,
    o.cmp_refl i,
  )

  pub measured-le-total : (k : K) (m : BTreeMap K V) → measured f (get k m) ≤ total f m
  unfolding get
  measured-le-total k [] = omega arith
  measured-le-total k (e ∷ m) = ground (arith, measured-le-total k m)

  pub total-remove-le : (k : K) (m : BTreeMap K V) → total f (remove k m) ≤ total f m
  unfolding remove
  total-remove-le k [] = omega arith
  total-remove-le k (e ∷ m) = ground (arith, total-remove-le k m)
