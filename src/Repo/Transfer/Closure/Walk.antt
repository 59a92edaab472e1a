-- ===== src/Repo/Transfer/Closure/Walk.antt =====
-- The lemmas on the loop over the entries of a tree.
use mathlib.Core.Logic.{⊎_elim}
use mathlib.Core.List.{Memᴰ}
use mathlib.Core.List.Memᴰ
use jj_mesh.Prelude.{
  >>=-eq-ok, ok, get, nat_ord, bool_ord, pair_ord, list_ord, option_ord, reverse_ord, Bool-cases,
  all, All, ◌≡◌, refl, inl, inr, Bool, true, false, some, List, [], ◌∷◌, foldl, arith,
}
use jj_mesh.Repo.Codec.Messages.{CommitId}
use jj_mesh.Repo.Codec.Ids.{has_id}
use jj_mesh.Repo.Transfer.Closure.Defs.{
  find_tree, find_all, same_entries, walk_entry, TreeEntry, GitObjects, TreeWalk,
}
use jj_mesh.Repo.Transfer.Closure.Tree.{
  is_link, tree_or_lem, ClosedUnder, in_walk, BasesHeld, same_tree_held, same_held, Progress-refl,
  new_entry_lem, IsTyped, IsBaseTree, Progress,
}

module _ (git : GitObjects) (held : CommitId → Bool) (typed : IsTyped git) where
  abbrev pub IsBase : List TreeEntry → Type 0
  IsBase = IsBaseTree git held typed

  abbrev pub Goes : TreeWalk → TreeWalk → Type 0
  Goes = Progress git held typed

  Progress-trans : (a b c : TreeWalk) → Goes a b → Goes b c → Goes a c
  Progress-trans a b c p q = record {
    grows = λ x h. q.grows x (p.grows x h);
    bases_held = λ h. q.bases_held (p.bases_held h);
    seen_typed = λ x h. ⊎_elim (p.seen_typed x) inr (q.seen_typed x h);
  }

  walk_entry_lem :
      (bases : List CommitId) (base_trees : List (List TreeEntry)) (w : TreeWalk) (e : TreeEntry)
      → all held bases ≡ true
      → All IsBase base_trees
      → e.mode ≡ typed.mode_of e.oid
      → let v = walk_entry bases base_trees w e in
        Goes w v × (is_link e.mode ≡ false → in_walk git held v e.oid ≡ true)
  unfolding walk_entry
  walk_entry_lem bases base_trees w e b trees t =
      let same = same_entries e base_trees in
      elim (Bool-cases (has_id e.oid same)) [
        | inl found ↦ rw found (
          Progress-refl git held typed w,
          λ n. ground (arith, same_held git held typed e base_trees trees t n found),
        )
        | inr new ↦ rw new (
            new_entry_lem git held typed bases w e e.mode same refl t b
              (same_tree_held git held typed e base_trees trees))
      ]

  pub entries_lem :
      (bases : List CommitId) (base_trees : List (List TreeEntry)) (w : TreeWalk)
      (es : List TreeEntry)
      → all held bases ≡ true
      → All IsBase base_trees
      → ((e : TreeEntry) → Memᴰ e es → e.mode ≡ typed.mode_of e.oid)
      → let v = foldl (walk_entry bases base_trees) w es in
        Goes w v
        × ((e : TreeEntry) → Memᴰ e es → is_link e.mode ≡ false → in_walk git held v e.oid ≡ true)
  entries_lem bases base_trees w [] b trees t =
      (Progress-refl git held typed w, λ e m n. absurd (Memᴰ.not-nil m))
  entries_lem bases base_trees w (e ∷ es) b trees t =
      let mid = walk_entry bases base_trees w e in
      let last = foldl (walk_entry bases base_trees) mid es in
      let (p, has) = walk_entry_lem bases base_trees w e b trees (t e (Memᴰ.head refl)) in
      let (q, later) = entries_lem bases base_trees mid es b trees (λ x m. t x (Memᴰ.tail m)) in
      (
        Progress-trans w mid last p q,
        λ x m n. elim (Memᴰ.cases_cons m) [
          | inl same ↦ q.grows x.oid (rw same (has (rw (← same) n)))
          | inr behind ↦ later x behind n
        ],
      )

  -- Every tree that was seen has its entries held, seen or waiting.
  pub record IsOpen (w : TreeWalk) : Type 0 where
    pub bases : BasesHeld git held w.stack
    pub closed : ClosedUnder git held (λ x. has_id x w.out.seen) (in_walk git held w)

  pub find_all_lem :
      (ids : List CommitId) (found : List (List TreeEntry))
      → ClosedUnder git held held held
      → all held ids ≡ true
      → find_all git ids ≡ ok found
      → All IsBase found
  find_all_lem [] found c h f = let e : [] ≡ found = ground arith in rw (← e) tt
  find_all_lem (id ∷ rest) found c h f =
      let (entries, e, f₁) = >>=-eq-ok (find_tree git id) _ f in
      let (others, e', f₂) = >>=-eq-ok (find_all git rest) _ f₁ in
      let same : entries ∷ others ≡ found = ground arith in
      let stored : get id git.trees ≡ some entries = tree_or_lem (get id git.trees) entries e in
      rw (← same) (
        record {
          entries_held = λ x m n. c id entries x (ground arith) stored m n;
          entries_typed = λ x m. typed.of_entry id entries x stored m;
        },
        find_all_lem rest others c (ground arith) e',
      )
