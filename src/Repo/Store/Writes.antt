-- ===== src/Repo/Store/Writes.antt =====
-- src/repo/write.rs: `RawWriteBatch`. A staged file is named by its directory and its id; the batch is made
-- for one state of the repo, which does not change before it is persisted.
use jj_mesh.Prelude.{
  Result, ok, BTreeMap, contains_key, insert, nat_ord, bool_ord, pair_ord, list_ord, option_ord,
  reverse_ord, if◌then◌else◌, List, [], ◌∷◌, ◌++◌, foldl, ◌>>◌,
}
use jj_mesh.Repo.Codec.Messages.{CommitId}
use jj_mesh.Repo.Store.Defs.{Bytes, check_replicated_id, OpStoreError, OpenRepo}

pub data Dir : Type 0 where
  operations_dir views_dir : Dir

-- The temporary file with its content, and the path that it is renamed to
pub data StagedFile : Type 0 where
  staged_file : Dir → CommitId → Bytes → StagedFile

abbrev pub RawWriteBatch : Type 0
RawWriteBatch = List StagedFile

abbrev pub files : Dir → OpenRepo → BTreeMap CommitId Bytes
files Dir.operations_dir repo = repo.operations
files Dir.views_dir repo = repo.views

-- `stage`: an object that exists is left untouched.
unfoldable pub stage_file : Dir → OpenRepo → RawWriteBatch → CommitId → Bytes → RawWriteBatch
stage_file dir repo batch id bytes =
    if contains_key id (files dir repo) then batch else batch ++ staged_file dir id bytes ∷ []

-- `write_operation_bytes` and `write_view_bytes`
unfoldable pub write_bytes :
    Dir → OpenRepo → RawWriteBatch → CommitId → Bytes → Result OpStoreError RawWriteBatch
write_bytes dir repo batch id bytes = do
  check_replicated_id repo id
  ok (stage_file dir repo batch id bytes)

abbrev pub write_operation_bytes :
    OpenRepo → RawWriteBatch → CommitId → Bytes → Result OpStoreError RawWriteBatch
write_operation_bytes = write_bytes Dir.operations_dir

abbrev pub write_view_bytes :
    OpenRepo → RawWriteBatch → CommitId → Bytes → Result OpStoreError RawWriteBatch
write_view_bytes = write_bytes Dir.views_dir

-- The rename of one staged file
unfoldable pub place : OpenRepo → StagedFile → OpenRepo
place repo (staged_file Dir.operations_dir id bytes) = record repo {
  operations = insert id bytes repo.operations;
}
place repo (staged_file Dir.views_dir id bytes) = record repo { views = insert id bytes repo.views }

unfoldable pub persist : OpenRepo → RawWriteBatch → OpenRepo
persist repo batch = foldl place repo batch
