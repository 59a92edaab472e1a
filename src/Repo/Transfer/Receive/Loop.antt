-- ===== src/Repo/Transfer/Receive/Loop.antt =====
-- The loop of `receive_ops` over the messages on a stream.
use jj_mesh.Prelude.{
  ◌>>=◌, ensure, Result, ok, err, nat_ord, bool_ord, pair_ord, list_ord, option_ord, reverse_ord,
  all, ℕ, zero, suc, ◌⊎◌, inl, inr, Bool, ◌||◌, List, ◌>>◌,
}
use jj_mesh.Config.Name.{sanitize}
use jj_mesh.Repo.Codec.Messages.{CommitId}
use jj_mesh.Repo.Codec.Ids.{has_id}
use jj_mesh.Repo.Store.Defs.{Bytes, has_operation, OpenRepo, Jj}
use jj_mesh.Net.Wire.{read_message}
use jj_mesh.Net.Fetch.{max_op_frame_size, OpFrame}
use jj_mesh.Repo.Transfer.Batch.{
  or_else, TransferError, wire_failure, want_not_sent, too_many_frames, refused, OpBatch, Codecs,
}
use jj_mesh.Repo.Transfer.Receive.Frames.{
  max_op_frames, start_receiving, receive_begin, receive_view, receive_op, Receiving,
}
use jj_mesh.Repo.Transfer.Reachable.Defs.{ensure_batch_reachable}

module _ (jj : Jj) (codecs : Codecs) (repo : OpenRepo) (wants : List CommitId) where
  -- Every want is in the batch, or is stored.
  abbrev pub wants_held : Receiving → Bool
  wants_held r = all (λ want. has_id want r.op_ids || has_operation repo want) wants

  abbrev pub finish : Receiving → Result TransferError OpBatch
  finish r = do
    ensure (wants_held r) want_not_sent
    let batch : OpBatch = record { ops = r.ops; views = r.views }
    ensure_batch_reachable wants batch
    ok batch

  -- One frame: the variables to go on with, or the batch
  unfoldable pub receive_frame : Receiving → OpFrame → Result TransferError (Receiving ⊎ OpBatch)
  receive_frame r (OpFrame.op_begin ops views) = do next ← receive_begin r ops views; ok (inl next)
  receive_frame r (OpFrame.view_frame id payload) = do
    next ← receive_view jj codecs repo r id payload
    ok (inl next)
  receive_frame r (OpFrame.op_frame id payload) = do
    next ← receive_op jj codecs repo r id payload
    ok (inl next)
  receive_frame r OpFrame.op_done = do batch ← finish r; ok (inr batch)
  receive_frame r (OpFrame.op_error message) = err (refused (sanitize message))

  -- The rounds that are left; the batch, and the stream after it
  unfoldable pub receive_rounds : ℕ → Receiving → Bytes → Result TransferError (OpBatch × Bytes)
  receive_rounds zero r stream = err too_many_frames
  receive_rounds (suc rounds) r stream =
      or_else wire_failure (read_message codecs.decode_op_frame max_op_frame_size stream)
      >>= λ read. receive_frame r (read.0) >>= λ next. elim next [
        | inl after_frame ↦ receive_rounds rounds after_frame (read.1)
        | inr batch ↦ ok (batch, read.1)
      ]

  unfoldable pub receive_ops : Bytes → Result TransferError (OpBatch × Bytes)
  receive_ops stream = receive_rounds max_op_frames start_receiving stream
