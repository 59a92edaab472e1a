-- ===== src/Repo/Transfer/Reachable/Walk.antt =====
-- The lemmas on `walk_batch`.
use jj_mesh.Prelude.{
  BTreeMap, get, nat_ord, bool_ord, pair_ord, list_ord, option_ord, reverse_ord, Bool-cases, length,
  length-append, length-keep-le, ℕ, zero, suc, ◌+◌, ◌≤◌, ◌<◌, ◌≡◌, refl, inl, inr, true, false,
  ◌||◌, List, [], ◌∷◌, arith,
}
use jj_mesh.Config.Machine.{text_eq, text_eq_sound}
use jj_mesh.Repo.Codec.Messages.{CommitId, OpMeta}
use jj_mesh.Repo.Codec.Ids.{has_id}
use jj_mesh.Repo.Sets.{Distinct, text_eq_refl, has_id-append}
use jj_mesh.Repo.Store.Defs.{rev}
use jj_mesh.Repo.Store.Walk.{has_id-rev, Reached, step}
use jj_mesh.Repo.Transfer.Reachable.Defs.{
  in_batch, parents_of_meta, batch_next, visit, walk_batch, parents_left, wanted_in,
}

length-rev : {A : Type 0} (xs : List A) → length (rev xs) ≡ length xs
length-rev [] = refl
length-rev (x ∷ xs) = omega (arith, length-rev xs, length-append (rev xs) (x ∷ []))

parents_left-le :
    (id : CommitId) (visited : List CommitId) (m : BTreeMap CommitId OpMeta)
    → parents_left (id ∷ visited) m ≤ parents_left visited m
unfolding parents_left
parents_left-le id visited [] = omega arith
parents_left-le id visited (e ∷ es) = ground (arith, parents_left-le id visited es)

-- An operation that is visited for the first time pays for its parents.
parents_left-visit :
    (id : CommitId) (visited : List CommitId) (m : BTreeMap CommitId OpMeta)
    → has_id id visited ≡ false
    → parents_left (id ∷ visited) m + length (parents_of_meta (get id m)) ≤ parents_left visited m
unfolding parents_left get
parents_left-visit id visited [] h = omega arith
parents_left-visit id visited (e ∷ es) h = ground (
  arith,
  parents_left-visit id visited es h,
  parents_left-le id visited es,
  text_eq_sound (e.0) id,
  text_eq_refl id,
)

module _ (by_id : BTreeMap CommitId OpMeta) (wants : List CommitId) where
  pub record Walks (visited stack : List CommitId) : Type 0 where
    pub distinct : Distinct visited
    pub sound :
        (x : CommitId)
        → (has_id x visited || has_id x stack) ≡ true
        → Reached (batch_next by_id) (wanted_in by_id wants) x
    pub covers :
        (x : CommitId)
        → has_id x (wanted_in by_id wants) ≡ true
        → (has_id x visited || has_id x stack) ≡ true
    pub closed :
        (u x : CommitId)
        → has_id u visited ≡ true
        → has_id x (batch_next by_id u) ≡ true
        → (has_id x visited || has_id x stack) ≡ true

  Walks-visit :
      (visited : List CommitId) (id : CommitId) (stack : List CommitId)
      → Walks visited (id ∷ stack)
      → let f = visit by_id visited id stack in Walks f.visited f.stack
  unfolding visit
  Walks-visit visited id stack w =
      let next = batch_next by_id id in
      let grown = λ (x : CommitId). has_id-append x (rev next) stack in
      let turned = λ (x : CommitId). has_id-rev x next in
      let here = w.sound id (ground (arith, text_eq_refl id)) in
      elim (Bool-cases (has_id id visited)) [
        | inl old ↦ rw old (record {
          distinct = w.distinct;
          sound = λ x h. w.sound x (ground arith);
          covers = λ x h. ground (arith, w.covers x h, text_eq_sound x id);
          closed = λ u x h k. ground (arith, w.closed u x h k, text_eq_sound x id);
        })
        | inr new ↦ rw new (record {
          distinct = (new, w.distinct);
          sound = λ x h. elim (Bool-cases (has_id x next)) [
            | inl e ↦ step here e
            | inr e ↦ w.sound x (ground (arith, grown x, turned x))
          ];
          covers = λ x h. ground (arith, w.covers x h, grown x);
          closed = λ u x h k. elim (Bool-cases (text_eq u id)) [
            | inl e ↦ ground (arith, grown x, turned x, rw (text_eq_sound u id e) at k)
            | inr e ↦ ground (arith, w.closed u x (ground arith) k, grown x)
          ];
        })
      ]

  length-next-le :
      (id : CommitId) → length (batch_next by_id id) ≤ length (parents_of_meta (get id by_id))
  length-next-le id = length-keep-le (in_batch by_id) (parents_of_meta (get id by_id))

  -- Every round makes the stack and the parents that are left smaller together.
  visit-lt :
      (visited : List CommitId) (id : CommitId) (stack : List CommitId)
      → let f = visit by_id visited id stack in
        length f.stack + parents_left f.visited by_id
        < length (id ∷ stack) + parents_left visited by_id
  unfolding visit
  visit-lt visited id stack =
      let next = batch_next by_id id in
      elim (Bool-cases (has_id id visited)) [
        | inl old ↦ rw old (omega arith)
        | inr new ↦ rw new (
            omega (
              arith,
              length-append (rev next) stack,
              length-rev next,
              length-next-le id,
              parents_left-visit id visited by_id new,
            ))
      ]

  pub Walks-walk :
      (fuel : ℕ) (visited stack : List CommitId)
      → Walks visited stack
      → length stack + parents_left visited by_id ≤ fuel
      → Walks (walk_batch by_id fuel visited stack) []
  unfolding walk_batch
  Walks-walk zero visited [] w h = w
  Walks-walk zero visited (id ∷ stack) w h = absurd (omega arith)
  Walks-walk (suc fuel) visited [] w h = w
  Walks-walk (suc fuel) visited (id ∷ stack) w h =
      let f = visit by_id visited id stack in
      Walks-walk fuel f.visited f.stack (Walks-visit visited id stack w)
        (omega (arith, visit-lt visited id stack))
