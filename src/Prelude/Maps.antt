-- ===== src/Prelude/Maps.antt =====
-- `BTreeMap`: association lists in key order. A lookup and an update compare keys only by `cmp`.
use Prim.Native.Nat.{◌+◌, ◌≤◌, suc, Ordering}
use mathlib.Core.Path.{◌≡◌, refl}
use mathlib.Core.Bool.{Bool}
use mathlib.Core.Option.{Option, none, some}
use mathlib.Core.List.{List, [], ◌∷◌}
use native.Mathlib.Omega.{arith}
use jj_mesh.Prelude.Tests.{if◌then◌else◌, is_some}
use jj_mesh.Prelude.Lists.{All, length}
use jj_mesh.Prelude.Order.{Ord, eqb, eqb_refl, eqb_sound}

abbrev pub BTreeMap : Type 0 → Type 0 → Type 0
BTreeMap K V = List (K × V)

module _ {K V : Type 0} where
  abbrev pub keys : BTreeMap K V → List K
  keys [] = []
  keys (e ∷ m) = e.0 ∷ keys m

  abbrev pub values : BTreeMap K V → List V
  values [] = []
  values (e ∷ m) = e.1 ∷ values m

  -- `retain`
  unfoldable pub retain : (K → V → Bool) → BTreeMap K V → BTreeMap K V
  retain p [] = []
  retain p ((k, v) ∷ m) = if p k v then (k, v) ∷ retain p m else retain p m

module _ {K V : Type 0} ⦃o : Ord K⦄ where
  unfoldable pub get : K → BTreeMap K V → Option V
  get k [] = none
  get k ((j, v) ∷ m) = if eqb j k then some v else get k m

  abbrev pub contains_key : K → BTreeMap K V → Bool
  contains_key k m = is_some (get k m)

  unfoldable pub insert : K → V → BTreeMap K V → BTreeMap K V
  insert k v [] = (k, v) ∷ []
  insert k v ((j, w) ∷ m) = elim (o.cmp k j) [
    | Ordering.lt ↦ (k, v) ∷ (j, w) ∷ m
    | Ordering.eq ↦ (k, v) ∷ m
    | Ordering.gt ↦ (j, w) ∷ insert k v m
  ]

  unfoldable pub remove : K → BTreeMap K V → BTreeMap K V
  remove k [] = []
  remove k ((j, v) ∷ m) = if eqb j k then remove k m else (j, v) ∷ remove k m

  -- Every key of the map is above `k`.
  abbrev pub Above : K → BTreeMap K V → Type 0
  Above k = All (λ e. o.cmp k e.0 ≡ Ordering.lt)

  abbrev pub Sorted : BTreeMap K V → Type 0
  Sorted [] = Unit
  Sorted (e ∷ m) = Above e.0 m × Sorted m

  pub get-insert :
      (j k : K) (v : V) (m : BTreeMap K V)
      → get j (insert k v m) ≡ (if eqb k j then some v else get j m)
  unfolding get insert
  get-insert j k v [] = refl
  get-insert j k v ((i, w) ∷ m) =
      ground (arith, get-insert j k v m, o.cmp_eq k i, o.cmp_eq i j, o.cmp_eq k j, o.cmp_refl k)

  pub get-remove :
      (j k : K) (m : BTreeMap K V) → get j (remove k m) ≡ (if eqb k j then none else get j m)
  unfolding get remove
  get-remove j k [] = ground arith
  get-remove j k ((i, w) ∷ m) =
      ground (arith, get-remove j k m, o.cmp_eq i k, o.cmp_eq i j, o.cmp_eq k j, o.cmp_refl k)

  pub get-Above : (k : K) (m : BTreeMap K V) → Above k m → get k m ≡ none
  unfolding get
  get-Above k [] h = refl
  get-Above k ((j, v) ∷ m) h = ground (arith, get-Above k m h.1, o.cmp_eq j k, o.cmp_refl j)

  Above-trans : (j k : K) (m : BTreeMap K V) → o.cmp j k ≡ Ordering.lt → Above k m → Above j m
  Above-trans j k [] h a = tt
  Above-trans j k (e ∷ m) h a = (o.cmp_trans j k e.0 h a.0, Above-trans j k m h a.1)

  insert-Above :
      (j k : K) (v : V) (m : BTreeMap K V)
      → o.cmp j k ≡ Ordering.lt
      → Above j m
      → Above j (insert k v m)
  unfolding insert
  insert-Above j k v [] h a = (h, tt)
  insert-Above j k v ((i, w) ∷ m) h a = ground (arith, insert-Above j k v m h a.1)

  pub insert-Sorted : (k : K) (v : V) (m : BTreeMap K V) → Sorted m → Sorted (insert k v m)
  unfolding insert
  insert-Sorted k v [] s = (tt, tt)
  insert-Sorted k v ((i, w) ∷ m) s = ground (
    arith,
    insert-Sorted k v m,
    insert-Above i k v m,
    Above-trans k i m,
    o.cmp_eq k i,
    o.cmp_flip k i,
  )

  pub remove-Above : (j k : K) (m : BTreeMap K V) → Above j m → Above j (remove k m)
  unfolding remove
  remove-Above j k [] a = tt
  remove-Above j k (e ∷ m) a = ground (arith, remove-Above j k m a.1)

  pub remove-Sorted : (k : K) (m : BTreeMap K V) → Sorted m → Sorted (remove k m)
  unfolding remove
  remove-Sorted k [] s = tt
  remove-Sorted k (e ∷ m) s = ground (arith, remove-Sorted k m s.1, remove-Above e.0 k m s.0)

  pub length-insert :
      (k : K) (v : V) (m : BTreeMap K V)
      → Sorted m
      → length (insert k v m) ≡ (if contains_key k m then length m else suc (length m))
  unfolding insert get
  length-insert k v [] s = refl
  length-insert k v ((i, w) ∷ m) s = ground (
    arith,
    length-insert k v m s.1,
    Above-trans k i m,
    get-Above k m,
    o.cmp_eq k i,
    o.cmp_eq i k,
    o.cmp_refl i,
    o.cmp_flip k i,
  )

  pub length-insert-le : (k : K) (v : V) (m : BTreeMap K V) → length (insert k v m) ≤ length m + 1
  unfolding insert
  length-insert-le k v [] = omega arith
  length-insert-le k v ((i, w) ∷ m) = ground (arith, length-insert-le k v m)

  pub length-remove-le : (k : K) (m : BTreeMap K V) → length (remove k m) ≤ length m
  unfolding remove
  length-remove-le k [] = omega arith
  length-remove-le k (e ∷ m) = ground (arith, length-remove-le k m)

  -- Two maps in key order with the same entries are equal.
  pub get-cons-lt :
      (i k : K) (w : V) (m : BTreeMap K V)
      → o.cmp k i ≡ Ordering.lt
      → Above i m
      → get k ((i, w) ∷ m) ≡ none
  unfolding get
  get-cons-lt i k w m h a = ground (arith, get-Above k m (Above-trans k i m h a), o.cmp_flip k i)

  ext_heads :
      (j k : K) (v w : V) (m n : BTreeMap K V)
      → Sorted ((j, v) ∷ m)
      → Sorted ((k, w) ∷ n)
      → get j ((j, v) ∷ m) ≡ get j ((k, w) ∷ n)
      → get k ((j, v) ∷ m) ≡ get k ((k, w) ∷ n)
      → (j ≡ k) × (v ≡ w)
  unfolding get
  ext_heads j k v w m n s t hj hk = ground (
    arith,
    get-cons-lt k j w n,
    get-cons-lt j k v m,
    o.cmp_flip j k,
    o.cmp_refl j,
    o.cmp_refl k,
    o.cmp_eq j k,
  )

  ext_tail :
      (i j k : K) (v w : V) (m n : BTreeMap K V)
      → j ≡ k
      → Above j m
      → Above k n
      → get i ((j, v) ∷ m) ≡ get i ((k, w) ∷ n)
      → get i m ≡ get i n
  unfolding get
  ext_tail i j k v w m n e a b h = ground (arith, get-Above j m a, get-Above k n b, eqb_sound j i)

  pub ext : (m n : BTreeMap K V) → Sorted m → Sorted n → ((k : K) → get k m ≡ get k n) → m ≡ n
  unfolding get
  ext [] [] s t h = refl
  ext [] ((k, w) ∷ n) s t h = ground (arith, h k, eqb_refl k)
  ext ((j, v) ∷ m) [] s t h = ground (arith, h j, eqb_refl j)
  ext ((j, v) ∷ m) ((k, w) ∷ n) s t h =
      let heads = ext_heads j k v w m n s t (h j) (h k) in
      let tails = ext m n s.1 t.1 (λ i. ext_tail i j k v w m n heads.0 s.0 t.0 (h i)) in
      cc (heads.0, heads.1, tails)

module _ {K V : Type 0} ⦃o : Ord K⦄ where
  pub length-le-insert : (k : K) (v : V) (m : BTreeMap K V) → length m ≤ length (insert k v m)
  unfolding insert
  length-le-insert k v [] = omega arith
  length-le-insert k v ((i, w) ∷ m) = ground (arith, length-le-insert k v m)
