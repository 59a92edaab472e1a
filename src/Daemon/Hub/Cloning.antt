-- ===== src/Daemon/Hub/Cloning.antt =====
-- What a clone is told.
use jj_mesh.Prelude.{
  ok, err, BTreeMap, get, Sorted, get-Above, eqb_refl, eqb_sound, Ord, nat_ord, bool_ord, pair_ord,
  list_ord, option_ord, reverse_ord, Bool-cases, length, all, keep, All, ◌<◌, ◌≡◌, refl, sym, ap,
  ◌∙◌, inl, inr, Bool, true, false, none, some, List, [], ◌∷◌, map, arith,
}
use jj_mesh.Config.Name.{Text}
use jj_mesh.Config.RepoId.{RepoId}
use jj_mesh.Config.Membership.Peers.{peer_register}
use jj_mesh.Config.Membership.Repos.{repo_register}
use jj_mesh.Config.Machine.{text_eq, text_eq_sound}
use jj_mesh.Config.Claims.{claims_register}
use jj_mesh.Daemon.Hub.Orphans.{
  Orphans, or_default, source_of, agreed, sources_of, clone_sources, nobody_announces,
  OrphanAnnounce, CloneSource,
}

module _ {E : Type 0} ⦃oe : Ord E⦄ where
  -- A source is a connected peer that announces the name under this id.
  abbrev pub IsSource : (E → Bool) → BTreeMap E OrphanAnnounce → RepoId → CloneSource E → Type 0
  IsSource connected held id source =
      (connected source.from ≡ true)
      × (get source.from held ≡ some (record { id = id; heads = source.heads }))

  sources_sound :
      (connected : E → Bool) (held : BTreeMap E OrphanAnnounce) (id : RepoId)
      (rest : BTreeMap E OrphanAnnounce)
      → Sorted rest
      → ((p : E) (a : OrphanAnnounce) → get p rest ≡ some a → get p held ≡ some a)
      → all (λ e. text_eq e.1.id id) (keep (λ e. connected e.0) rest) ≡ true
      → All (IsSource connected held id) (map source_of (keep (λ e. connected e.0) rest))
  unfolding get
  sources_sound connected held id [] s sub h = tt
  sources_sound connected held id (e ∷ rest) s sub h =
      let below =
        sources_sound connected held id rest s.1
          (λ p a k. sub p a (ground (arith, get-Above (e.0) rest s.0, eqb_sound (e.0) p))) in
      elim (Bool-cases (connected (e.0))) [
        | inr gone ↦ rw gone (below (rw gone at h))
        | inl here ↦
            let k = rw here at h in
            let same : e.1.id ≡ id = ground (arith, text_eq_sound (e.1.id) id) in
            rw here (
              (
                here,
                sub (e.0) (e.1) (ground (arith, eqb_refl (e.0)))
                    ∙ ap (λ i. some (record (e.1) { id = i })) same,
              ),
              below (ground arith),
            )
      ]

  agreed-ok :
      (b : Bool) (i : RepoId) (l : List (CloneSource E)) (id : RepoId)
      (sources : List (CloneSource E))
      → agreed b i l ≡ ok (id, sources)
      → (b ≡ true) × (i ≡ id) × (l ≡ sources)
  agreed-ok b i l id sources h = ground arith

  agreed-none :
      (b : Bool) (i : RepoId) (l : List (CloneSource E)) → ¬ (agreed b i l ≡ err nobody_announces)
  agreed-none true i l h = ground arith
  agreed-none false i l h = ground arith

  sources_of-ok :
      (found : List (E × OrphanAnnounce)) (id : RepoId) (sources : List (CloneSource E))
      → sources_of found ≡ ok (id, sources)
      → (all (λ e. text_eq e.1.id id) found ≡ true)
        × (0 < length sources)
        × (sources ≡ map source_of found)
  sources_of-ok [] id sources h = ground arith
  sources_of-ok (e ∷ found) id sources h =
      let (yes_all, same, listed) =
        agreed-ok (all (λ x. text_eq x.1.id (e.1.id)) (e ∷ found)) (e.1.id)
          (map source_of (e ∷ found)) id sources h in
      (
        sym (ap (λ i. all (λ x. text_eq x.1.id i) (e ∷ found)) same) ∙ yes_all,
        rw (← listed) (omega arith),
        sym listed,
      )

  sources_of-none :
      (found : List (E × OrphanAnnounce)) → sources_of found ≡ err nobody_announces → found ≡ []
  sources_of-none [] h = refl
  sources_of-none (e ∷ found) h = absurd (
      agreed-none (all (λ x. text_eq x.1.id (e.1.id)) (e ∷ found)) (e.1.id)
        (map source_of (e ∷ found)) h)

  none_connected :
      (connected : E → Bool) (held : BTreeMap E OrphanAnnounce) (p : E)
      → keep (λ e. connected e.0) held ≡ []
      → connected p ≡ true
      → get p held ≡ none
  unfolding get
  none_connected connected [] p h k = refl
  none_connected connected (e ∷ held) p h k =
      ground (arith, none_connected connected held p, eqb_sound (e.0) p)

  -- A clone is offered only connected peers that announce the name, at least one, and all under one id; it
  -- is told that nobody announces the name only when no connected peer does.
  pub clone_sources_lem :
      (connected : E → Bool) (orphans : Orphans E) (name : Text)
      → let held = or_default (get name orphans) in
        Sorted held
        → ((id : RepoId) (sources : List (CloneSource E))
            → clone_sources connected orphans name ≡ ok (id, sources)
            → (0 < length sources) × All (IsSource connected held id) sources)
          × (clone_sources connected orphans name ≡ err nobody_announces
              → (p : E) → connected p ≡ true
              → get p held ≡ none)
  unfolding clone_sources
  clone_sources_lem connected orphans name s =
      let held = or_default (get name orphans) in
      let found = keep (λ e. connected e.0) held in
      (
        λ id sources h.
            let facts = sources_of-ok found id sources h in
            (facts.1, rw facts.2 (sources_sound connected held id held s (λ p a k. k) facts.0)),
        λ h p k. none_connected connected held p (sources_of-none found h) k,
      )
