-- ===== src/Repo/Transfer/Apply/Supersede.antt =====
-- The lemmas on `superseded_by`.
use jj_mesh.Prelude.{
  BTreeMap, nat_ord, bool_ord, pair_ord, list_ord, option_ord, reverse_ord, Bool-cases, ℕ, zero,
  suc, ◌≡◌, inl, inr, true, false, not, ◌&&◌, List, [], ◌∷◌, arith,
}
use jj_mesh.Config.Machine.{text_eq, text_eq_sound}
use jj_mesh.Repo.Codec.Messages.{CommitId, OpMeta}
use jj_mesh.Repo.Codec.Ids.{has_id}
use jj_mesh.Repo.Sets.{has_id_self, has_id-append}
use jj_mesh.Repo.Store.Defs.{OpenRepo, Jj}
use jj_mesh.Repo.Store.Walk.{rootless, stack-push, Reached, start, step, Frontier}
use jj_mesh.Repo.Transfer.Apply.Defs.{
  supersede_walk_budget, parents_of, supersede_step, walk_superseded, superseded_by,
}

module _ (jj : Jj) (repo : OpenRepo) (batch : BTreeMap CommitId OpMeta) (want : CommitId)
    (local_heads : List CommitId) where
  -- The parents that the walk follows, from the validated batch or from the local store
  abbrev pub known_parents : CommitId → List CommitId
  known_parents id = rootless repo.root (parents_of jj repo batch id)

  abbrev pub IsAncestor : CommitId → Type 0
  IsAncestor = Reached known_parents (want ∷ [])

  pub record IsSuperseded (x : CommitId) : Type 0 where
    pub is_head : has_id x local_heads ≡ true
    pub is_other : text_eq x want ≡ false
    pub is_ancestor : IsAncestor x

  record Walking (superseded stack : List CommitId) : Type 0 where
    found : (x : CommitId) → has_id x superseded ≡ true → IsSuperseded x
    waiting : (x : CommitId) → has_id x stack ≡ true → IsAncestor x

  Walking-step :
      (superseded visited stack : List CommitId) (id : CommitId)
      → Walking superseded (id ∷ stack)
      → let w =
          supersede_step jj repo batch want local_heads
            (record {
              superseded = superseded;
              frontier = record { visited = visited; stack = stack };
            })
            id in
        Walking w.superseded w.frontier.stack
  unfolding supersede_step
  Walking-step superseded visited stack id w =
      let f : Frontier = record { visited = visited; stack = stack } in
      let here = w.waiting id (has_id_self id stack) in
      elim (Bool-cases (not (text_eq id want) && has_id id local_heads)) [
        | inl head ↦ rw head (record {
          found = λ x h. elim (Bool-cases (has_id x superseded)) [
            | inl old ↦ w.found x old
            | inr new ↦
                let same : x ≡ id =
                  text_eq_sound x id (ground (arith, has_id-append x superseded (id ∷ []))) in
                rw same
                  (record { is_head = ground arith; is_other = ground arith; is_ancestor = here })
          ];
          waiting = λ x h. w.waiting x (ground arith);
        })
        | inr other ↦ rw other (record {
          found = w.found;
          waiting = λ x h. elim (Bool-cases (has_id x stack)) [
            | inl old ↦ w.waiting x (ground arith)
            | inr new ↦
                step here (ground (arith, stack-push repo.root x f (parents_of jj repo batch id)))
          ];
        })
      ]

  walk_lem :
      (budget : ℕ) (superseded visited stack : List CommitId) (x : CommitId)
      → Walking superseded stack
      → has_id x (walk_superseded jj repo batch want local_heads budget superseded visited stack)
        ≡ true
      → IsSuperseded x
  unfolding walk_superseded
  walk_lem zero superseded visited stack x w h = w.found x h
  walk_lem (suc budget) superseded visited [] x w h = w.found x h
  walk_lem (suc budget) superseded visited (id ∷ stack) x w h =
      let s =
        supersede_step jj repo batch want local_heads
          (record {
            superseded = superseded;
            frontier = record { visited = visited; stack = stack };
          })
          id in
      walk_lem budget s.superseded s.frontier.visited s.frontier.stack x
        (Walking-step superseded visited stack id w) h

-- Whatever the batch says, an id that a want supersedes is another head of the local operation log and an
-- ancestor of the want along parents that the batch or the local store records.
pub superseded_by_sound :
    (jj : Jj) (repo : OpenRepo) (batch : BTreeMap CommitId OpMeta) (want : CommitId)
    (local_heads : List CommitId) (x : CommitId)
    → has_id x (superseded_by jj repo batch want local_heads) ≡ true
    → IsSuperseded jj repo batch want local_heads x
unfolding superseded_by
superseded_by_sound jj repo batch want local_heads x h =
    walk_lem jj repo batch want local_heads supersede_walk_budget [] [] (want ∷ []) x
      (record { found = λ y m. cc; waiting = λ y m. start m }) h
