-- ===== src/Repo/Store/Defs.antt =====
-- The stores of a repo, and the queries and updates of `OpenRepo`.
use jj_mesh.Prelude.{
  ensure, Result, ok, err, BTreeMap, get, contains_key, nat_ord, bool_ord, pair_ord, list_ord,
  option_ord, reverse_ord, ◌==◌, if◌then◌else◌, length, all, keep, ℕ, ◌≡◌, Bool, true, false, not,
  ◌&&◌, ◌||◌, Option, none, some, List, [], ◌∷◌, ◌++◌, ◌>>◌,
}
use jj_mesh.Config.Machine.{text_eq}
use jj_mesh.Repo.Codec.Messages.{CommitId, Operation, View}
use jj_mesh.Repo.Codec.Ids.{has_id}

abbrev pub Bytes : Type 0
Bytes = List ℕ

pub data OpStoreError : Type 0 where
  bad_replicated_id refusing_root : OpStoreError
  not_stored cannot_decode no_such_file : OpStoreError
  head_not_stored : OpStoreError
  commit_outside_index : OpStoreError

-- The operations and the views that are stored, by their ids, and the heads of the operation log
pub record OpenRepo : Type 0 where
  pub root : CommitId
  pub op_heads : List CommitId
  pub operations : BTreeMap CommitId Bytes
  pub views : BTreeMap CommitId Bytes

-- What is called of jj: the decoding of its protocol buffers, the readers of its operation store, which refuse
-- more than the decoding does, the values of an enumeration that it knows, and the update of the heads of the
-- operation log by the old heads and the new one
pub record Jj : Type 0 where
  pub decode_operation : Bytes → Option Operation
  pub decode_view : Bytes → Option View
  pub load_operation : Bytes → Option Operation
  pub load_view : Bytes → Option View
  pub is_known : ℕ → Bool
  pub replace_heads : List CommitId → List CommitId → CommitId → List CommitId

-- The heads are a set of files: the new one is added, the old ones are removed.
pub record KeepsHeads (jj : Jj) : Type 0 where
  pub has_id-replace :
      (heads old : List CommitId) (new x : CommitId)
      → has_id new old ≡ false
      → has_id x (jj.replace_heads heads old new)
        ≡ (text_eq x new || (has_id x heads && not (has_id x old)))

abbrev pub root_operation_id : OpenRepo → CommitId
root_operation_id repo = repo.root

abbrev pub is_root : OpenRepo → CommitId → Bool
is_root repo id = text_eq id repo.root

abbrev pub id_len : OpenRepo → ℕ
id_len repo = length repo.root

-- `has_operation`: jj resolves the whole id of a stored operation, and that of the root.
unfoldable pub has_operation : OpenRepo → CommitId → Bool
has_operation repo id =
    (length id == length repo.root) && (is_root repo id || contains_key id repo.operations)

abbrev pub decoded_or : {A : Type 0} → Option A → Result OpStoreError A
decoded_or none = err cannot_decode
decoded_or (some a) = ok a

abbrev pub found_file : Option Bytes → Result OpStoreError Bytes
found_file none = err no_such_file
found_file (some bytes) = ok bytes

-- The file of an object
abbrev pub read_raw : BTreeMap CommitId Bytes → CommitId → Result OpStoreError Bytes
read_raw dir id = found_file (get id dir)

abbrev pub read_operation_bytes : OpenRepo → CommitId → Result OpStoreError Bytes
read_operation_bytes repo id = read_raw repo.operations id

abbrev pub read_view_bytes : OpenRepo → CommitId → Result OpStoreError Bytes
read_view_bytes repo id = read_raw repo.views id

module _ (jj : Jj) where
  abbrev pub stored_operation : Option Bytes → Result OpStoreError Operation
  stored_operation none = err not_stored
  stored_operation (some bytes) = decoded_or (jj.load_operation bytes)

  -- `read_operation`. The root operation has no parents.
  unfoldable pub read_operation : OpenRepo → CommitId → Result OpStoreError Operation
  read_operation repo id =
      if is_root repo id
      then ok (record { view_id = repo.root; parents = []; commit_predecessors = [] })
      else stored_operation (get id repo.operations)

  abbrev pub stored_view : Option Bytes → Result OpStoreError Bool
  stored_view none = ok false
  stored_view (some bytes) = elim (jj.load_view bytes) [
    | none ↦ err cannot_decode
    | some v ↦ ok true
  ]

  -- `has_view`
  unfoldable pub has_view : OpenRepo → CommitId → Result OpStoreError Bool
  has_view repo id = if is_root repo id then ok true else stored_view (get id repo.views)

  -- `update_op_heads`
  unfoldable pub update_op_heads :
      OpenRepo → List CommitId → CommitId → Result OpStoreError OpenRepo
  update_op_heads repo old new = do
    ensure (has_operation repo new) head_not_stored
    ok (record repo { op_heads = jj.replace_heads repo.op_heads old new })

-- `check_replicated_id`
unfoldable pub check_replicated_id : OpenRepo → CommitId → Result OpStoreError (Unit {0})
check_replicated_id repo id = do
  ensure (length id == id_len repo) bad_replicated_id
  ensure (not (is_root repo id)) refusing_root

abbrev pub rev {ℓ} : {A : Type ℓ} → List A → List A
rev [] = []
rev (x ∷ xs) = rev xs ++ x ∷ []

-- `is_virtual_root`
unfoldable pub is_virtual_root : CommitId → Bool
is_virtual_root id = all (λ b. b == 0) id

-- The filter of `unindexed`; whether an index is built is a test.
unfoldable pub unindexed : (CommitId → Bool) → List CommitId → List CommitId
unindexed has_commit_index ids = keep (λ id. not (has_commit_index id)) ids

-- `commit_range`. jj gives the range of the known roots and the heads, children first.
unfoldable pub commit_range :
    (CommitId → Bool)
    → (List CommitId → List CommitId → List CommitId)
    → List CommitId
    → List CommitId
    → Result OpStoreError (List CommitId)
commit_range is_indexed evaluate roots heads = do
  let known = keep is_indexed roots
  ensure (all is_indexed heads) commit_outside_index
  ok (rev (evaluate known heads))
