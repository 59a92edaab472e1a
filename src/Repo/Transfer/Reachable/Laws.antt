-- ===== src/Repo/Transfer/Reachable/Laws.antt =====
-- The lemmas on `ensure_batch_reachable`.
use jj_mesh.Prelude.{
  ensure-eq-ok, ok, BTreeMap, get, contains_key, insert, get-insert, nat_ord, bool_ord, pair_ord,
  list_ord, option_ord, reverse_ord, ◌==◌, length, suc, ◌+◌, ◌≡◌, refl, ap, ◌↔◌, true, ◌||◌, List,
  [], ◌∷◌, foldl, arith,
}
use jj_mesh.Repo.Codec.Messages.{CommitId, OpMeta}
use jj_mesh.Repo.Codec.Ids.{has_id}
use jj_mesh.Repo.Sets.{Subset, Distinct, text_eq_sym, has_id-keep, length-Subset, Subset-all}
use jj_mesh.Repo.Store.Defs.{rev}
use jj_mesh.Repo.Store.Walk.{Reached-closed, has_id-rev, Reached, start, step}
use jj_mesh.Repo.Transfer.Batch.{ops_by_id, unreachable_ops, StoredOp, OpBatch}
use jj_mesh.Repo.Transfer.Reachable.Defs.{
  ids, in_batch, parents_of_meta, parents_left, wanted_in, reachable_in, ensure_batch_reachable,
  batch_parents,
}
use jj_mesh.Repo.Transfer.Reachable.Walk.{Walks-walk, Walks}

abbrev pub add_op : BTreeMap CommitId OpMeta → StoredOp → BTreeMap CommitId OpMeta
add_op m o = insert o.id o.meta m

contains-add_ops :
    (x : CommitId) (m : BTreeMap CommitId OpMeta) (ops : List StoredOp)
    → contains_key x (foldl add_op m ops) ≡ (contains_key x m || has_id x (ids ops))
contains-add_ops x m [] = ground arith
contains-add_ops x m (o ∷ os) =
    ground
      (arith, contains-add_ops x (add_op m o) os, get-insert x o.id o.meta m, text_eq_sym x o.id)

pub contains-ops_by_id :
    (x : CommitId) (ops : List StoredOp) → contains_key x (ops_by_id ops) ≡ has_id x (ids ops)
unfolding ops_by_id get
contains-ops_by_id x ops = contains-add_ops x [] ops

length-ids : (ops : List StoredOp) → length (ids ops) ≡ length ops
length-ids [] = refl
length-ids (o ∷ os) = ap suc (length-ids os)

module _ (ops : List StoredOp) (wants : List CommitId) where
  abbrev pub FromWants : CommitId → Type 0
  FromWants = Reached (batch_parents ops) (wanted_in (ops_by_id ops) wants)

  reached_in : Walks (ops_by_id ops) wants (reachable_in ops wants) []
  unfolding reachable_in
  reached_in =
      let by_id = ops_by_id ops in
      let stack = rev (wanted_in by_id wants) in
      let turned = λ (x : CommitId). has_id-rev x (wanted_in by_id wants) in
      Walks-walk by_id wants (length stack + parents_left [] by_id) [] stack
        (record {
          distinct = tt;
          sound = λ x h. start (ground (arith, turned x));
          covers = λ x h. ground (arith, turned x);
          closed = λ u x h k. cc;
        })
        (omega arith)

  FromWants-ids : (x : CommitId) → FromWants x → has_id x (ids ops) ≡ true
  FromWants-ids x (start h) =
      ground (arith, has_id-keep (in_batch (ops_by_id ops)) x wants, contains-ops_by_id x ops)
  FromWants-ids x (step {u} r h) = ground (
    arith,
    has_id-keep (in_batch (ops_by_id ops)) x (parents_of_meta (get u (ops_by_id ops))),
    contains-ops_by_id x ops,
  )

  visited_iff : (x : CommitId) → (has_id x (reachable_in ops wants) ≡ true) ↔ FromWants x
  visited_iff x =
      let w = reached_in in
      (
        λ h. w.sound x (ground arith),
        λ r.
            Reached-closed (batch_parents ops) (wanted_in (ops_by_id ops) wants)
              (reachable_in ops wants) (λ y h. ground (arith, w.covers y h))
              (λ u v h k. ground (arith, w.closed u v h k)) r,
      )

-- Provided that no operation stands twice in it, a batch is accepted exactly when every operation in it is
-- reached from a want along the parents in the batch.
pub ensure_batch_reachable_iff :
    (wants : List CommitId) (batch : OpBatch)
    → Distinct (ids batch.ops)
    → (ensure_batch_reachable wants batch ≡ ok tt)
      ↔ ((x : CommitId) → has_id x (ids batch.ops) ≡ true → FromWants batch.ops wants x)
unfolding ensure_batch_reachable
ensure_batch_reachable_iff wants batch d =
    let found = reachable_in batch.ops wants in
    let w = reached_in batch.ops wants in
    let seen = visited_iff batch.ops wants in
    let inside : Subset found (ids batch.ops) =
      λ x h. FromWants-ids batch.ops wants x ((seen x).0 h) in
    (
      λ h x m.
          let e : length found ≡ length (ids batch.ops) = ground (
            arith,
            length-ids batch.ops,
            ensure-eq-ok (length found == length batch.ops) unreachable_ops h,
          ) in
          (seen x).0 (Subset-all found (ids batch.ops) w.distinct inside e x m),
      λ all_reached.
          let back : Subset (ids batch.ops) found = λ x m. (seen x).1 (all_reached x m) in
          ground (
            arith,
            length-ids batch.ops,
            length-Subset found (ids batch.ops) w.distinct inside,
            length-Subset (ids batch.ops) found d back,
          ),
    )
