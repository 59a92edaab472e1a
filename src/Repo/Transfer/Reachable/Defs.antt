-- ===== src/Repo/Transfer/Reachable/Defs.antt =====
-- The walk over the operations of a batch.
use jj_mesh.Prelude.{
  ensure, Result, BTreeMap, get, contains_key, nat_ord, bool_ord, pair_ord, list_ord, option_ord,
  reverse_ord, ◌==◌, if◌then◌else◌, length, keep, ℕ, zero, suc, ◌+◌, Bool, Option, none, some, List,
  [], ◌∷◌, ◌++◌,
}
use jj_mesh.Repo.Codec.Messages.{CommitId, OpMeta}
use jj_mesh.Repo.Codec.Ids.{has_id}
use jj_mesh.Repo.Store.Defs.{rev}
use jj_mesh.Repo.Store.Walk.{Frontier}
use jj_mesh.Repo.Transfer.Batch.{ops_by_id, TransferError, unreachable_ops, StoredOp, OpBatch}

abbrev pub ids : List StoredOp → List CommitId
ids [] = []
ids (o ∷ os) = o.id ∷ ids os

abbrev pub in_batch : BTreeMap CommitId OpMeta → CommitId → Bool
in_batch by_id id = contains_key id by_id

-- The parents in the batch of an operation of it
abbrev pub parents_of_meta : Option OpMeta → List CommitId
parents_of_meta none = []
parents_of_meta (some meta) = meta.parents

abbrev pub batch_next : BTreeMap CommitId OpMeta → CommitId → List CommitId
batch_next by_id id = keep (in_batch by_id) (parents_of_meta (get id by_id))

-- The body of the loop: the last parent that is pushed is popped first.
unfoldable pub visit :
    BTreeMap CommitId OpMeta → List CommitId → CommitId → List CommitId → Frontier
visit by_id reachable id stack =
    if has_id id reachable
    then record { visited = reachable; stack = stack }
    else record { visited = id ∷ reachable; stack = rev (batch_next by_id id) ++ stack }

unfoldable pub walk_batch :
    BTreeMap CommitId OpMeta → ℕ → List CommitId → List CommitId → List CommitId
walk_batch by_id zero reachable stack = reachable
walk_batch by_id (suc fuel) reachable [] = reachable
walk_batch by_id (suc fuel) reachable (id ∷ stack) =
    let f = visit by_id reachable id stack in walk_batch by_id fuel f.visited f.stack

-- The parents of all the operations that are not in `visited`
unfoldable pub parents_left : List CommitId → BTreeMap CommitId OpMeta → ℕ
parents_left visited [] = 0
parents_left visited (e ∷ es) =
    (if has_id e.0 visited then 0 else length (e.1.parents)) + parents_left visited es

abbrev pub wanted_in : BTreeMap CommitId OpMeta → List CommitId → List CommitId
wanted_in by_id wants = keep (in_batch by_id) wants

unfoldable pub reachable_in : List StoredOp → List CommitId → List CommitId
reachable_in ops wants =
    let by_id = ops_by_id ops in
    let stack = rev (wanted_in by_id wants) in
    walk_batch by_id (length stack + parents_left [] by_id) [] stack

unfoldable pub ensure_batch_reachable : List CommitId → OpBatch → Result TransferError (Unit {0})
ensure_batch_reachable wants batch =
    ensure (length (reachable_in batch.ops wants) == length batch.ops) unreachable_ops

-- The operations of the batch as a graph
abbrev pub batch_parents : List StoredOp → CommitId → List CommitId
batch_parents ops = batch_next (ops_by_id ops)
