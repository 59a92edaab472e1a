-- ===== src/Config/Membership/Convergence.antt =====
-- The adoption loop on several lists of records, in one order and in another.
use jj_mesh.Prelude.{
  AllEntries, insert-AllEntries, BTreeMap, get, Sorted, get-Above, length-insert-le, ext, eqb,
  eqb_sound, Ord, nat_ord, bool_ord, pair_ord, list_ord, option_ord, reverse_ord, if◌then◌else◌,
  Bool-cases, length, ℕ, ◌+◌, ◌≤◌, ◌<◌, ◌≡◌, refl, sym, ap, ◌∙◌, inl, inr, Bool, true, false,
  Option, none, some, List, [], ◌∷◌, arith,
}
use jj_mesh.Config.Membership.Register.{should_adopt, Register}
use jj_mesh.Config.Membership.Peers.{peer_register}
use jj_mesh.Config.Membership.Repos.{repo_register}
use jj_mesh.Config.Membership.Ranking.{settle, settle_comm, settle_assoc, IsRanked}
use jj_mesh.Config.Membership.Adoption.{
  adopt, adopt_all, adopt_all-Sorted, get-adopt, get-adopt_all_other, get-adopt_all_known,
}

module _ {V : Type 0} ⦃r : Register V⦄ where
  -- What an entry becomes when both sides' entries are known.
  abbrev pub combine : Option V → Option V → Option V
  combine none b = b
  combine (some a) none = some a
  combine (some a) (some b) = some (settle a b)

  module _ (ranked : IsRanked r) where
    combine_comm : (a b : Option V) → combine a b ≡ combine b a
    combine_comm none none = refl
    combine_comm none (some b) = refl
    combine_comm (some a) none = refl
    combine_comm (some a) (some b) = ap some (settle_comm ranked a b)

    combine_assoc : (a b c : Option V) → combine (combine a b) c ≡ combine a (combine b c)
    combine_assoc none b c = refl
    combine_assoc (some a) none c = refl
    combine_assoc (some a) (some b) none = refl
    combine_assoc (some a) (some b) (some c) = ap some (settle_assoc ranked a b c)

    combine_swap : (a b c : Option V) → combine (combine a b) c ≡ combine (combine a c) b
    combine_swap a b c =
        combine_assoc a b c ∙ ap (combine a) (combine_comm b c) ∙ sym (combine_assoc a c b)

module _ {K V : Type 0} (valid : K → V → Bool) where
  -- An entry that does not pass the filter counts as absent.
  abbrev pub allowed : K → Option V → Option V
  allowed k none = none
  allowed k (some v) = if valid k v then some v else none

module _ {K V : Type 0} ⦃o : Ord K⦄ ⦃r : Register V⦄ (valid : K → V → Bool) (cap : ℕ) where
  allowed_self :
      (k : K) (m : BTreeMap K V) → AllEntries valid m → allowed valid k (get k m) ≡ get k m
  unfolding get
  allowed_self k [] a = refl
  allowed_self k (e ∷ m) a = ground (arith, allowed_self k m a.1, eqb_sound e.0 k)

  length-adopt-le : (m : BTreeMap K V) (e : K × V) → length (adopt valid cap m e) ≤ length m + 1
  unfolding adopt
  length-adopt-le m e = ground (arith, length-insert-le e.0 e.1 m)

  pub length-adopt_all-le :
      (m : BTreeMap K V) (es : List (K × V))
      → length (adopt_all valid cap m es) ≤ length m + length es
  unfolding adopt_all
  length-adopt_all-le m [] = omega arith
  length-adopt_all-le m (e ∷ es) =
      omega (arith, length-adopt_all-le (adopt valid cap m e) es, length-adopt-le m e)

  adopt-AllEntries :
      (m : BTreeMap K V) (e : K × V) → AllEntries valid m → AllEntries valid (adopt valid cap m e)
  unfolding adopt
  adopt-AllEntries m e a = ground (arith, insert-AllEntries valid e.0 e.1 m)

  pub adopt_all-AllEntries :
      (m : BTreeMap K V) (es : List (K × V))
      → AllEntries valid m
      → AllEntries valid (adopt_all valid cap m es)
  unfolding adopt_all
  adopt_all-AllEntries m [] a = a
  adopt_all-AllEntries m (e ∷ es) a =
      adopt_all-AllEntries (adopt valid cap m e) es (adopt-AllEntries m e a)

  module _ (ranked : IsRanked r) where
    new_step :
        (k : K) (m : BTreeMap K V) (e : K × V)
        → eqb e.0 k ≡ true
        → valid e.0 e.1 ≡ true
        → length m < cap
        → get k m ≡ none
        → get k (adopt valid cap m e) ≡ some e.1
    unfolding should_adopt
    new_step k m e here p room g = ground (arith, get-adopt valid cap k m e, eqb_sound e.0 k)

    -- A new key is adopted as long as there is room.
    pub get-adopt_all_new :
        (k : K) (m : BTreeMap K V) (es : List (K × V)) (v : V)
        → Sorted es
        → get k es ≡ some v
        → valid k v ≡ true
        → get k m ≡ none
        → length m + length es ≤ cap
        → get k (adopt_all valid cap m es) ≡ some v
    unfolding adopt_all get
    get-adopt_all_new k m [] v s h p g room = cc
    get-adopt_all_new k m (e ∷ es) v s h p g room = elim (Bool-cases (eqb e.0 k)) [
      | inl here ↦
          let same : e.1 ≡ v = ground arith in
          get-adopt_all_other valid cap ranked k (adopt valid cap m e) es
            (rw (← eqb_sound e.0 k here) (get-Above e.0 es s.0))
          ∙ new_step k m e here (rw (same, eqb_sound e.0 k here) p) (omega arith) g
          ∙ rw same
      | inr there ↦
          get-adopt_all_new k (adopt valid cap m e) es v s.1 (ground arith) p
            (rw (get-adopt, there) g) (omega (arith, length-adopt-le m e))
    ]

    invalid_step :
        (k : K) (m : BTreeMap K V) (e : K × V)
        → eqb e.0 k ≡ true
        → valid e.0 e.1 ≡ false
        → get k (adopt valid cap m e) ≡ get k m
    invalid_step k m e here p = ground (arith, get-adopt valid cap k m e)

    get-adopt_all_invalid :
        (k : K) (m : BTreeMap K V) (es : List (K × V)) (v : V)
        → Sorted es
        → get k es ≡ some v
        → valid k v ≡ false
        → get k (adopt_all valid cap m es) ≡ get k m
    unfolding adopt_all get
    get-adopt_all_invalid k m [] v s h p = cc
    get-adopt_all_invalid k m (e ∷ es) v s h p = elim (Bool-cases (eqb e.0 k)) [
      | inl here ↦
          let same : e.1 ≡ v = ground arith in
          get-adopt_all_other valid cap ranked k (adopt valid cap m e) es
            (rw (← eqb_sound e.0 k here) (get-Above e.0 es s.0))
          ∙ invalid_step k m e here (rw (same, eqb_sound e.0 k here) p)
      | inr there ↦
          get-adopt_all_invalid k (adopt valid cap m e) es v s.1 (ground arith) p
          ∙ rw (get-adopt, there)
    ]

    get-adopt_all_cases :
        (k : K) (m : BTreeMap K V) (es : List (K × V))
        → Sorted es
        → length m + length es ≤ cap
        → (ours theirs : Option V) → get k m ≡ ours
        → get k es ≡ theirs
        → get k (adopt_all valid cap m es) ≡ combine ours (allowed valid k theirs)
    get-adopt_all_cases k m es s room ours none g h =
        get-adopt_all_other valid cap ranked k m es h ∙ ground arith
    get-adopt_all_cases k m es s room none (some v) g h = elim (Bool-cases (valid k v)) [
      | inl good ↦ get-adopt_all_new k m es v s h good g room ∙ rw good
      | inr bad ↦ get-adopt_all_invalid k m es v s h bad ∙ g ∙ rw bad
    ]
    get-adopt_all_cases k m es s room (some w) (some v) g h = elim (Bool-cases (valid k v)) [
      | inl good ↦ get-adopt_all_known valid cap ranked k m es w v s h good g ∙ rw good
      | inr bad ↦ get-adopt_all_invalid k m es v s h bad ∙ g ∙ rw bad
    ]

    -- With room for all, each entry becomes the higher ranked of the two sides' entries.
    pub get-adopt_all :
        (k : K) (m : BTreeMap K V) (es : List (K × V))
        → Sorted es
        → length m + length es ≤ cap
        → get k (adopt_all valid cap m es) ≡ combine (get k m) (allowed valid k (get k es))
    get-adopt_all k m es s room = get-adopt_all_cases k m es s room (get k m) (get k es) refl refl

    -- Two machines that hold `m` and `n` and merge each other's records hold the same records.
    pub adopt_all_comm :
        (m n : BTreeMap K V)
        → Sorted m
        → Sorted n
        → AllEntries valid m
        → AllEntries valid n
        → length m + length n ≤ cap
        → adopt_all valid cap m n ≡ adopt_all valid cap n m
    adopt_all_comm m n s t a b room =
        ext (adopt_all valid cap m n) (adopt_all valid cap n m) (adopt_all-Sorted valid cap m n s)
          (adopt_all-Sorted valid cap n m t)
          λ k.
            get-adopt_all k m n t room
            ∙ ap (combine (get k m)) (allowed_self k n b)
            ∙ combine_comm ranked (get k m) (get k n)
            ∙ sym (ap (combine (get k n)) (allowed_self k m a))
            ∙ sym (get-adopt_all k n m s (omega arith))

    -- The order in which two peers' records arrive does not matter.
    pub adopt_all_swap :
        (m a b : BTreeMap K V)
        → Sorted m
        → Sorted a
        → Sorted b
        → length m + length a + length b ≤ cap
        → adopt_all valid cap (adopt_all valid cap m a) b
          ≡ adopt_all valid cap (adopt_all valid cap m b) a
    adopt_all_swap m a b s sa sb room =
        let ma = adopt_all valid cap m a in
        let mb = adopt_all valid cap m b in
        ext (adopt_all valid cap ma b) (adopt_all valid cap mb a)
          (adopt_all-Sorted valid cap ma b (adopt_all-Sorted valid cap m a s))
          (adopt_all-Sorted valid cap mb a (adopt_all-Sorted valid cap m b s))
          λ k.
            get-adopt_all k ma b sb (omega (arith, length-adopt_all-le m a))
            ∙ ap (λ x. combine x (allowed valid k (get k b))) (get-adopt_all k m a sa (omega arith))
            ∙ combine_swap ranked (get k m) (allowed valid k (get k a)) (allowed valid k (get k b))
            ∙ sym (
                ap (λ x. combine x (allowed valid k (get k a)))
                  (get-adopt_all k m b sb (omega arith)))
            ∙ sym (get-adopt_all k mb a sa (omega (arith, length-adopt_all-le m b)))
