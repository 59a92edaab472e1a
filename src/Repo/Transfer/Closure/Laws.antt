-- ===== src/Repo/Transfer/Closure/Laws.antt =====
-- The lemmas on `visit_tree`, `walk_stack` and `walk_tree`.
use mathlib.Core.List.{Memᴰ}
use jj_mesh.Prelude.{
  >>=-eq-ok, ok, get, nat_ord, bool_ord, pair_ord, list_ord, option_ord, reverse_ord, Bool-cases,
  length, all, All, ℕ, zero, suc, ◌+◌, ◌≤◌, ◌<◌, ◌≡◌, inl, inr, Bool, true, false, ◌||◌, some, List,
  [], ◌∷◌, foldl, arith,
}
use jj_mesh.Config.Machine.{text_eq, text_eq_sound}
use jj_mesh.Repo.Codec.Messages.{CommitId}
use jj_mesh.Repo.Codec.Ids.{has_id}
use jj_mesh.Repo.Sets.{text_eq_refl, all-has_id}
use jj_mesh.Repo.Transfer.Closure.Defs.{
  Waiting, find_tree, find_all, walk_entry, emit_tree, visit_tree, walk_stack, all_entries,
  walk_tree, EntryMode, TreeEntry, GitObjects, Emitting, TreeWalk,
}
use jj_mesh.Repo.Transfer.Closure.Tree.{
  is_link, tree_or_lem, ClosedUnder, holds_or_seen, waiting_ids, in_walk, BasesHeld, IsTyped,
}
use jj_mesh.Repo.Transfer.Closure.Emits.{was_sent, IsEmitting, walk_tree_emits}
use jj_mesh.Repo.Transfer.Closure.Walk.{IsBase, entries_lem, find_all_lem, IsOpen}
use jj_mesh.Repo.Transfer.Closure.Size.{
  entries_left, entries_left-Subset, entries_left-cons, entries_left-nil, fold_size,
}

module _ (git : GitObjects) (held : CommitId → Bool) (typed : IsTyped git)
    (bases : List CommitId) where
  -- What a visit does: the walk stays open, what was there is there, and less is left.
  record Visited (out : Emitting) (stack : Waiting) (id : CommitId) (w : TreeWalk) : Type 0 where
    is_open : IsOpen git held typed w
    has_all :
        (x : CommitId)
        → (holds_or_seen git held out x || has_id x (id ∷ waiting_ids git held stack)) ≡ true
        → in_walk git held w x ≡ true
    less :
        length w.stack + entries_left w.out.seen git.trees
        < suc (length stack) + entries_left out.seen git.trees

  fresh_visit :
      (out : Emitting) (id : CommitId) (stack : Waiting) (w : TreeWalk) (entries : List TreeEntry)
      (base_trees : List (List TreeEntry))
      → all held bases ≡ true
      → get id git.trees ≡ some entries
      → All (IsBase git held typed) base_trees
      → BasesHeld git held stack
      → has_id id out.seen ≡ false
      → ClosedUnder git held
          (λ x. has_id x out.seen)
          (λ x. holds_or_seen git held out x || has_id x (id ∷ waiting_ids git held stack))
      → emit_tree id (
          foldl
            (walk_entry bases base_trees)
            (record { out = record out { seen = id ∷ out.seen }; stack = stack })
            entries)
        ≡ w
      → Visited out stack id w
  fresh_visit out id stack w entries base_trees b stored trees bs new closed e =
      let begin : TreeWalk = record { out = record out { seen = id ∷ out.seen }; stack = stack } in
      let last = foldl (walk_entry bases base_trees) begin entries in
      let (p, has) =
        entries_lem git held typed bases base_trees begin entries b trees
          (λ en m. typed.of_entry id entries en stored m) in
      let (n, s) = fold_size bases base_trees begin entries in
      rw (← e) (record {
        is_open = record {
          bases = p.bases_held bs;
          closed = λ x es en k g m l. elim (p.seen_typed x k) [
            | inr blob ↦ absurd (ground (arith, typed.of_tree x es g, blob))
            | inl before ↦ elim (Bool-cases (text_eq x id)) [
              | inl here ↦
                  let same : es ≡ entries = ground (arith, rw (text_eq_sound x id here) at g) in
                  has en (rw same at m) l
              | inr other ↦ p.grows en.oid (ground (arith, closed x es en (ground arith) g m l))
            ]
          ];
        };
        has_all = λ x k. p.grows x (ground arith);
        less = omega (
          arith,
          n,
          entries_left-Subset (id ∷ out.seen) last.out.seen git.trees s,
          entries_left-cons id out.seen git.trees entries new stored,
        );
      })

  visit_tree_lem :
      (out : Emitting) (id : CommitId) (subtree_bases : List CommitId) (stack : Waiting)
      (w : TreeWalk)
      → ClosedUnder git held held held
      → all held bases ≡ true
      → IsOpen git held typed (record { out = out; stack = (id, subtree_bases) ∷ stack })
      → visit_tree git bases out id subtree_bases stack ≡ ok w
      → Visited out stack id w
  unfolding visit_tree
  visit_tree_lem out id subtree_bases stack w c b o h = elim (Bool-cases (has_id id out.seen)) [
    | inl old ↦
        let e : record { out = out; stack = stack } ≡ w =
          ground (arith, rw (old, visit_tree) at h) in
        rw (← e) (record {
          is_open = record {
            bases = (o.bases).1;
            closed = λ x entries en s g m n.
                ground (arith, o.closed x entries en s g m n, text_eq_sound en.oid id);
          };
          has_all = λ x k. ground (arith, text_eq_sound x id);
          less = omega arith;
        })
    | inr new ↦
        let (entries, e, h₁) = >>=-eq-ok (find_tree git id) _ (rw (new, visit_tree) at h) in
        let (base_trees, f, h₂) = >>=-eq-ok (find_all git subtree_bases) _ h₁ in
        let stored = tree_or_lem (get id git.trees) entries e in
        let trees = find_all_lem git held typed subtree_bases base_trees c ((o.bases).0) f in
        fresh_visit out id stack w entries base_trees b stored trees ((o.bases).1) new
          (λ x es en s g m n. o.closed x es en s g m n) (ground arith)
  ]

  walk_stack_lem :
      (fuel : ℕ) (out last : Emitting) (stack : Waiting)
      → ClosedUnder git held held held
      → all held bases ≡ true
      → IsOpen git held typed (record { out = out; stack = stack })
      → length stack + entries_left out.seen git.trees ≤ fuel
      → walk_stack git bases fuel out stack ≡ ok last
      → IsOpen git held typed (record { out = last; stack = [] })
        × ((x : CommitId)
            → in_walk git held (record { out = out; stack = stack }) x ≡ true
            → holds_or_seen git held last x ≡ true)
  unfolding walk_stack
  walk_stack_lem zero out last [] c b o n h =
      let e : out ≡ last = ground arith in rw (← e) (o, λ x k. ground arith)
  walk_stack_lem zero out last (e ∷ stack) c b o n h = absurd (omega arith)
  walk_stack_lem (suc fuel) out last [] c b o n h =
      let e : out ≡ last = ground arith in rw (← e) (o, λ x k. ground arith)
  walk_stack_lem (suc fuel) out last ((id, sub) ∷ stack) c b o n h =
      let (w, e, rest) = >>=-eq-ok (visit_tree git bases out id sub stack) _ h in
      let v = visit_tree_lem out id sub stack w c b o e in
      let (opened, has) =
        walk_stack_lem fuel w.out last w.stack c b v.is_open (omega (arith, v.less)) rest in
      (opened, λ x k. has x (v.has_all x k))

walk_tree_closed :
    (git : GitObjects) (held : CommitId → Bool) (root : CommitId) (bases : List CommitId)
    (out last : Emitting)
    → IsTyped git
    → ClosedUnder git held held held
    → ClosedUnder git held (λ x. has_id x out.seen) (holds_or_seen git held out)
    → all held bases ≡ true
    → walk_tree git root bases out ≡ ok last
    → ClosedUnder git held (λ x. has_id x last.seen) (holds_or_seen git held last)
      × (holds_or_seen git held last root ≡ true)
      × ((x : CommitId)
          → holds_or_seen git held out x ≡ true
          → holds_or_seen git held last x ≡ true)
unfolding walk_tree
walk_tree_closed git held root bases out last typed c closed b h =
    elim (Bool-cases (has_id root bases)) [
      | inl base ↦
          let e : out ≡ last = ground (arith, rw base at h) in
          rw (← e) (closed, ground (arith, all-has_id held root bases b base), λ x k. k)
      | inr fresh ↦
          let opened : IsOpen git held typed (record { out = out; stack = (root, bases) ∷ [] }) =
            record {
              bases = (b, tt);
              closed = λ x es en s g m n. ground (arith, closed x es en s g m n);
            } in
          let (done, has) =
            walk_stack_lem git held typed bases (all_entries git.trees + 1) out last
              ((root, bases) ∷ []) c b opened
              (omega (
                arith,
                entries_left-Subset [] out.seen git.trees (λ x m. cc),
                entries_left-nil git.trees,
              ))
              (rw fresh at h) in
          (
            λ x es en s g m n. ground (arith, done.closed x es en s g m n),
            has root (ground (arith, text_eq_refl root)),
            λ x k. has x (ground arith),
          )
    ]

-- What a tree holds: itself, and the entries of every tree that it holds, links aside
pub data InTree (git : GitObjects) (root : CommitId) : CommitId → Type 0 where
  itself : InTree git root root
  entry :
      {id : CommitId} (entries : List TreeEntry) (e : TreeEntry)
      → InTree git root id
      → get id git.trees ≡ some entries
      → Memᴰ e entries
      → is_link e.mode ≡ false
      → InTree git root e.oid

-- The fetcher holds it, or it was emitted with its kind.
abbrev pub holds_or_sent : (CommitId → EntryMode) → (CommitId → Bool) → Emitting → CommitId → Bool
holds_or_sent mode_of held out x = held x || was_sent mode_of out.emitted x

module _ (git : GitObjects) (held : CommitId → Bool) (typed : IsTyped git) where
  -- What was seen is closed with what the fetcher holds, and was emitted.
  pub record IsComplete (out : Emitting) : Type 0 where
    pub closed : ClosedUnder git held (λ x. has_id x out.seen) (holds_or_seen git held out)
    pub emits : IsEmitting git typed out

  InTree-seen :
      (root : CommitId) {x : CommitId} (out : Emitting)
      → ClosedUnder git held held held
      → IsComplete out
      → holds_or_seen git held out root ≡ true
      → InTree git root x
      → holds_or_seen git held out x ≡ true
  InTree-seen root out c o r itself = r
  InTree-seen root out c o r (entry {id} entries e t g m n) = elim (Bool-cases (held id)) [
    | inl here ↦ ground (arith, c id entries e here g m n)
    | inr new ↦ o.closed id entries e (ground (arith, InTree-seen root out c o r t)) g m n
  ]

-- When the mode of every stored entry agrees with the object that it names, the fetcher holds the whole of every
-- base and of what it holds, and all that was seen so far was emitted and is closed with what the fetcher
-- holds, a walk over a tree that succeeds keeps this and leaves nothing of the tree out: whatever the tree
-- holds, links into other repos aside, is held by the fetcher or was emitted with its kind.
pub walk_tree_lem :
    (git : GitObjects) (held : CommitId → Bool) (root : CommitId) (bases : List CommitId)
    (out last : Emitting) (typed : IsTyped git)
    → ClosedUnder git held held held
    → IsComplete git held typed out
    → all held bases ≡ true
    → walk_tree git root bases out ≡ ok last
    → IsComplete git held typed last
      × ((x : CommitId) → InTree git root x → holds_or_sent typed.mode_of held last x ≡ true)
walk_tree_lem git held root bases out last typed c o b h =
    let (closed, here, _) = walk_tree_closed git held root bases out last typed c o.closed b h in
    let complete : IsComplete git held typed last = record {
      closed = closed;
      emits = walk_tree_emits git typed root bases out last o.emits h;
    } in
    (
      complete,
      λ x t.
          ground (arith, InTree-seen git held typed root last c complete here t, complete.emits x),
    )
