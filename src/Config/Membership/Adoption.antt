-- ===== src/Config/Membership/Adoption.antt =====
-- The loop that both halves of `merge_membership` run over a peer's records: every record that
-- passes the filter is adopted by `should_adopt`.
use jj_mesh.Prelude.{
  BTreeMap, get, insert, Sorted, get-insert, get-Above, insert-Sorted, length-insert,
  length-le-insert, eqb, eqb_refl, eqb_sound, Ord, nat_ord, bool_ord, pair_ord, list_ord,
  option_ord, reverse_ord, if◌then◌else◌, Bool-cases, Option-cases, length, All, ℕ, ◌≤◌, ◌≡◌, refl,
  ◌∙◌, ◌⊎◌, inl, inr, Bool, true, false, ◌&&◌, none, some, List, [], ◌∷◌, arith,
}
use jj_mesh.Config.Membership.Register.{should_adopt, Register}
use jj_mesh.Config.Membership.Peers.{peer_register}
use jj_mesh.Config.Membership.Repos.{repo_register}
use jj_mesh.Config.Membership.Ranking.{settle, IsRanked}

module _ {K V : Type 0} ⦃o : Ord K⦄ ⦃r : Register V⦄ (valid : K → V → Bool) (cap : ℕ) where
  abbrev pub adopts : BTreeMap K V → K → V → Bool
  adopts m k v = valid k v && should_adopt m k v cap

  unfoldable pub adopt : BTreeMap K V → K × V → BTreeMap K V
  adopt m e = if adopts m e.0 e.1 then insert e.0 e.1 m else m

  unfoldable pub adopt_all : BTreeMap K V → List (K × V) → BTreeMap K V
  unfolding adopt
  adopt_all m [] = m
  adopt_all m (e ∷ es) = adopt_all (adopt m e) es

  pub adopt-Sorted : (m : BTreeMap K V) (e : K × V) → Sorted m → Sorted (adopt m e)
  unfolding adopt
  adopt-Sorted m e s = ground (arith, insert-Sorted e.0 e.1 m s)

  pub adopt_all-Sorted : (m : BTreeMap K V) (es : List (K × V)) → Sorted m → Sorted (adopt_all m es)
  unfolding adopt_all
  adopt_all-Sorted m [] s = s
  adopt_all-Sorted m (e ∷ es) s = adopt_all-Sorted (adopt m e) es (adopt-Sorted m e s)

  -- The cap is never passed.
  pub length-adopt :
      (m : BTreeMap K V) (e : K × V) → Sorted m → length m ≤ cap → length (adopt m e) ≤ cap
  unfolding adopt should_adopt
  length-adopt m e s h = ground (arith, length-insert e.0 e.1 m s)

  pub length-adopt_all :
      (m : BTreeMap K V) (es : List (K × V))
      → Sorted m
      → length m ≤ cap
      → length (adopt_all m es) ≤ cap
  unfolding adopt_all
  length-adopt_all m [] s h = h
  length-adopt_all m (e ∷ es) s h =
      length-adopt_all (adopt m e) es (adopt-Sorted m e s) (length-adopt m e s h)

  pub length-le-adopt : (m : BTreeMap K V) (e : K × V) → length m ≤ length (adopt m e)
  unfolding adopt
  length-le-adopt m e = ground (arith, length-le-insert e.0 e.1 m)

  -- What one step does to each entry.
  pub get-adopt :
      (k : K) (m : BTreeMap K V) (e : K × V)
      → get k (adopt m e) ≡ (if eqb e.0 k && adopts m e.0 e.1 then some e.1 else get k m)
  unfolding adopt
  get-adopt k m e = ground (arith, get-insert k e.0 e.1 m)

  -- No record of `es` would be adopted any more.
  abbrev pub Settled : BTreeMap K V → List (K × V) → Type 0
  Settled m = All (λ e. adopts m e.0 e.1 ≡ false)

  Settled-adopt_all : (m : BTreeMap K V) (es : List (K × V)) → Settled m es → adopt_all m es ≡ m
  unfolding adopt_all adopt
  Settled-adopt_all m [] h = refl
  Settled-adopt_all m (e ∷ es) h = rw h.0 (Settled-adopt_all m es h.1)

  module _ (ranked : IsRanked r) where
    -- A record that is refused once stays refused.
    refused_stays :
        (m : BTreeMap K V) (e : K × V) (k : K) (v : V)
        → adopts m k v ≡ false
        → adopts (adopt m e) k v ≡ false
    unfolding should_adopt
    refused_stays m e k v h = elim (Option-cases (get k m)) [
      | inl new ↦ ground (arith, get-adopt k m e, length-le-adopt m e, eqb_sound e.0 k)
      | inr (a, known) ↦ ground (arith, get-adopt k m e, eqb_sound e.0 k, ranked.trans v e.1 a)
    ]

    refused_after : (m : BTreeMap K V) (k : K) (v : V) → adopts (adopt m (k, v)) k v ≡ false
    unfolding should_adopt
    refused_after m k v =
        ground (arith, get-adopt k m (k, v), length-le-adopt m (k, v), eqb_refl k, ranked.irrefl v)

    Settled-stays :
        (m : BTreeMap K V) (e : K × V) (es : List (K × V)) → Settled m es → Settled (adopt m e) es
    Settled-stays m e [] h = tt
    Settled-stays m e (f ∷ es) h = (refused_stays m e f.0 f.1 h.0, Settled-stays m e es h.1)

    refused_stays_all :
        (m : BTreeMap K V) (es : List (K × V)) (k : K) (v : V)
        → adopts m k v ≡ false
        → adopts (adopt_all m es) k v ≡ false
    unfolding adopt_all
    refused_stays_all m [] k v h = h
    refused_stays_all m (e ∷ es) k v h =
        refused_stays_all (adopt m e) es k v (refused_stays m e k v h)

    adopt_all-Settled : (m : BTreeMap K V) (es : List (K × V)) → Settled (adopt_all m es) es
    unfolding adopt_all
    adopt_all-Settled m [] = tt
    adopt_all-Settled m (e ∷ es) = (
      refused_stays_all (adopt m e) es e.0 e.1 (refused_after m e.0 e.1),
      adopt_all-Settled (adopt m e) es,
    )

    -- Running the loop again on the same records changes nothing.
    pub adopt_all_again :
        (m : BTreeMap K V) (es : List (K × V)) → adopt_all (adopt_all m es) es ≡ adopt_all m es
    adopt_all_again m es = Settled-adopt_all (adopt_all m es) es (adopt_all-Settled m es)

    adopted_outranks :
        (k : K) (m : BTreeMap K V) (e : K × V) {a : V}
        → get k m ≡ some a
        → (eqb e.0 k && adopts m e.0 e.1) ≡ true
        → r.outranks e.1 a ≡ true
    unfolding should_adopt
    adopted_outranks k m e h taken = ground (arith, eqb_sound e.0 k)

    -- The held record never falls behind, and what is refused is outranked or finds no room.
    pub adopt_all_keeps :
        (k : K) (m : BTreeMap K V) (es : List (K × V)) {a : V}
        → get k m ≡ some a
        → (b : V) × (get k (adopt_all m es) ≡ some b) × (r.outranks a b ≡ false)
    unfolding adopt_all
    adopt_all_keeps k m [] {a} h = (a, h, ranked.irrefl a)
    adopt_all_keeps k m (e ∷ es) {a} h = elim (Bool-cases (eqb e.0 k && adopts m e.0 e.1)) [
      | inl taken ↦
          let (b, held, above) =
            adopt_all_keeps k (adopt m e) es {a = e.1} (rw (get-adopt, taken)) in
          let won = adopted_outranks k m e h taken in
          (b, held, ground (arith, ranked.trans e.1 a b))
      | inr refused ↦ adopt_all_keeps k (adopt m e) es (rw (get-adopt, refused) h)
    ]

    -- A key that no record of the list carries keeps its entry.
    pub get-adopt_all_other :
        (k : K) (m : BTreeMap K V) (es : List (K × V))
        → get k es ≡ none
        → get k (adopt_all m es) ≡ get k m
    unfolding adopt_all get
    get-adopt_all_other k m [] h = refl
    get-adopt_all_other k m (e ∷ es) h =
        ground (arith, get-adopt_all_other k (adopt m e) es, get-adopt k m e)

    settled_step :
        (k : K) (m : BTreeMap K V) (e : K × V) (a : V)
        → eqb e.0 k ≡ true
        → valid e.0 e.1 ≡ true
        → get k m ≡ some a
        → get k (adopt m e) ≡ some (settle a e.1)
    unfolding should_adopt
    settled_step k m e a here p g = ground (arith, get-adopt k m e, eqb_sound e.0 k)

    -- A known key ends with the higher ranked of the two records.
    pub get-adopt_all_known :
        (k : K) (m : BTreeMap K V) (es : List (K × V)) (a v : V)
        → Sorted es
        → get k es ≡ some v
        → valid k v ≡ true
        → get k m ≡ some a
        → get k (adopt_all m es) ≡ some (settle a v)
    unfolding adopt_all get
    get-adopt_all_known k m [] a v s h p g = cc
    get-adopt_all_known k m (e ∷ es) a v s h p g = elim (Bool-cases (eqb e.0 k)) [
      | inl here ↦
          let same : e.1 ≡ v = ground arith in
          get-adopt_all_other k (adopt m e) es (rw (← eqb_sound e.0 k here) (get-Above e.0 es s.0))
          ∙ settled_step k m e a here (rw (same, eqb_sound e.0 k here) p) g
          ∙ rw same
      | inr there ↦
          get-adopt_all_known k (adopt m e) es a v s.1 (ground arith) p (rw (get-adopt, there) g)
    ]

    -- Every record held at the end was held before or came from the list.
    pub adopt_all_source :
        (k : K) (m : BTreeMap K V) (es : List (K × V)) {b : V}
        → Sorted es
        → get k (adopt_all m es) ≡ some b
        → (get k m ≡ some b) ⊎ (get k es ≡ some b)
    unfolding adopt_all get
    adopt_all_source k m [] s h = inl h
    adopt_all_source k m (e ∷ es) s h = elim (adopt_all_source k (adopt m e) es s.1 h) [
      | inl before ↦ ground (arith, get-adopt k m e)
      | inr after ↦ ground (arith, get-Above e.0 es s.0, eqb_sound e.0 k)
    ]
