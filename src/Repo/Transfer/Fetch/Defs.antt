-- ===== src/Repo/Transfer/Fetch/Defs.antt =====
-- `fetch` and `apply_batch`. Whether the two requests can be written, what jj does with the new commits and the
-- refs, and the reception of a pack are arguments; a deadline that passes is a failure of the stream.
use jj_mesh.Prelude.{
  ◌>>=◌, ensure, Result, ok, err, get, nat_ord, bool_ord, pair_ord, list_ord, option_ord,
  reverse_ord, leb, if◌then◌else◌, length, is_empty, ℕ, not, ◌&&◌, Option, none, some, List, [],
  ◌∷◌, ◌++◌, ◌>>◌,
}
use jj_mesh.Repo.Codec.Messages.{CommitId}
use jj_mesh.Repo.Store.Defs.{
  Bytes, is_root, decoded_or, read_operation, OpStoreError, not_stored, OpenRepo, Jj,
}
use jj_mesh.Net.Fetch.{max_wants, GitTransferFormat, GitRequest}
use jj_mesh.Repo.Transfer.Batch.{
  or_else, TransferError, store_failure, bad_wants, FetchOutcome, OpBatch, Codecs,
}
use jj_mesh.Repo.Transfer.Receive.Loop.{receive_ops}
use jj_mesh.Repo.Transfer.Apply.Defs.{stage, publish_staged}
use jj_mesh.Repo.Transfer.Samples.{sample_haves}
use jj_mesh.Repo.Transfer.Loose.Defs.{
  GitStore, referenced_commits, git_request, receive_git_loose, ensure_git_wants_arrived, Gix,
}

-- What is called of jj, Git and the connection
pub record Remote : Type 0 where
  pub write_request : List CommitId → List CommitId → Result TransferError (Unit {0})
  pub write_git_request : GitRequest → Result TransferError (Unit {0})
  pub receive_git_pack : GitStore → Bytes → Result TransferError (GitStore × ℕ)
  pub imported : Result OpStoreError (Unit {0})
  pub mirrored : Result OpStoreError (Unit {0})
  pub root_view_heads : List CommitId

-- A repo with its Git store
pub record Replica : Type 0 where
  pub repo : OpenRepo
  pub git : GitStore

module _ (jj : Jj) (codecs : Codecs) (gix : Gix) (remote : Remote) where
  abbrev pub heads_or : Option Bytes → Result OpStoreError (List CommitId)
  heads_or none = err not_stored
  heads_or (some bytes) = decoded_or (jj.load_view bytes) >>= λ view. ok (view.head_ids)

  -- The heads of the view of an operation
  abbrev pub heads_of_view : OpenRepo → CommitId → Result OpStoreError (List CommitId)
  heads_of_view repo head = read_operation jj repo head >>= λ op.
      if is_root repo op.view_id
      then ok remote.root_view_heads
      else heads_or (get op.view_id repo.views)

  abbrev pub local_view_heads : OpenRepo → List CommitId → Result OpStoreError (List CommitId)
  local_view_heads repo [] = ok []
  local_view_heads repo (head ∷ heads) = do
    some_heads ← heads_of_view repo head
    rest ← local_view_heads repo heads
    ok (some_heads ++ rest)

  unfoldable pub apply_batch :
      OpenRepo → OpBatch → List CommitId → List CommitId → Result OpStoreError OpenRepo
  apply_batch repo batch wants local_heads =
      stage jj remote.imported repo batch wants local_heads >>= λ staged.
      publish_staged jj remote.mirrored (staged.0) (staged.1)

  unfoldable pub receive_git :
      GitTransferFormat → GitStore → Bytes → Result TransferError (GitStore × ℕ)
  receive_git GitTransferFormat.loose git stream = receive_git_loose gix codecs git stream
  receive_git GitTransferFormat.pack git stream = remote.receive_git_pack git stream

  -- What follows the op phase: the Git phase, and the application of the batch
  unfoldable pub finish_fetch :
      Replica
      → List CommitId
      → GitTransferFormat
      → OpBatch
      → Bytes
      → Result TransferError (Replica × FetchOutcome)
  finish_fetch replica wants format batch stream = do
    view_heads ← or_else store_failure (local_view_heads replica.repo replica.repo.op_heads)
    request ← git_request gix replica.git format view_heads (referenced_commits batch)
    remote.write_git_request request
    received ← receive_git request.format replica.git stream
    ensure_git_wants_arrived (received.0) request.wants
    applied ← or_else store_failure (apply_batch replica.repo batch wants replica.repo.op_heads)
    ok (
      record { repo = applied; git = received.0 },
      record { ops = length batch.ops; git_objects = received.1 },
    )

  unfoldable pub fetch :
      Replica
      → List CommitId
      → GitTransferFormat
      → Bytes
      → Result TransferError (Replica × FetchOutcome)
  fetch replica wants format stream = do
    ensure (not (is_empty wants) && leb (length wants) max_wants) bad_wants
    haves ← or_else store_failure (sample_haves jj replica.repo replica.repo.op_heads)
    remote.write_request wants haves
    received ← receive_ops jj codecs replica.repo wants stream
    finish_fetch replica wants format (received.0) (received.1)
