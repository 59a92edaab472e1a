-- ===== src/Daemon/Hub/Values.antt =====
-- `values_mut` of a `BTreeMap`: a function on every value.
use jj_mesh.Prelude.{
  AllEntries, BTreeMap, get, Above, Sorted, Ord, nat_ord, bool_ord, pair_ord, list_ord, option_ord,
  reverse_ord, ◌≡◌, refl, Bool, true, Option, none, some, [], ◌∷◌, arith,
}
use jj_mesh.Config.Membership.Peers.{peer_register}
use jj_mesh.Config.Membership.Repos.{repo_register}
use jj_mesh.Config.Claims.{claims_register}

abbrev pub mapped : {V W : Type 0} → (V → W) → Option V → Option W
mapped f none = none
mapped f (some v) = some (f v)

module _ {K V W : Type 0} where
  unfoldable pub map_values : (V → W) → BTreeMap K V → BTreeMap K W
  map_values f [] = []
  map_values f (e ∷ m) = (e.0, f (e.1)) ∷ map_values f m

  module _ ⦃o : Ord K⦄ where
    pub get-map_values :
        (f : V → W) (m : BTreeMap K V) (k : K) → get k (map_values f m) ≡ mapped f (get k m)
    unfolding map_values get
    get-map_values f [] k = refl
    get-map_values f (e ∷ m) k = ground (arith, get-map_values f m k)

    map_values-Above : (f : V → W) (k : K) (m : BTreeMap K V) → Above k m → Above k (map_values f m)
    unfolding map_values
    map_values-Above f k [] h = tt
    map_values-Above f k (e ∷ m) h = (h.0, map_values-Above f k m h.1)

    pub map_values-Sorted : (f : V → W) (m : BTreeMap K V) → Sorted m → Sorted (map_values f m)
    unfolding map_values
    map_values-Sorted f [] s = tt
    map_values-Sorted f (e ∷ m) s = (map_values-Above f (e.0) m s.0, map_values-Sorted f m s.1)

module _ {K V W : Type 0} where
  pub map_values-AllEntries :
      (f : V → W) (p : K → V → Bool) (q : K → W → Bool) (m : BTreeMap K V)
      → ((k : K) (v : V) → p k v ≡ true → q k (f v) ≡ true)
      → AllEntries p m
      → AllEntries q (map_values f m)
  unfolding map_values
  map_values-AllEntries f p q [] h a = tt
  map_values-AllEntries f p q (e ∷ m) h a = (h (e.0) (e.1) a.0, map_values-AllEntries f p q m h a.1)
