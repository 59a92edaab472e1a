-- ===== src/Repo/Transfer/Receive/Safe.antt =====
-- The lemmas on `receive_ops`.
use mathlib.Core.Path.{subst}
use jj_mesh.Prelude.{
  ensure, >>=-eq-ok, ensure-eq-ok, ok, nat_ord, bool_ord, pair_ord, list_ord, option_ord,
  reverse_ord, ℕ, zero, suc, ◌≡◌, refl, ◌⊎◌, inl, inr, true, not, ◌||◌, List, arith,
}
use jj_mesh.Repo.Codec.Messages.{CommitId}
use jj_mesh.Repo.Codec.Ids.{has_id}
use jj_mesh.Repo.Sets.{all-has_id}
use jj_mesh.Repo.Store.Defs.{Bytes, has_operation, OpenRepo, Jj}
use jj_mesh.Net.Wire.{read_message}
use jj_mesh.Net.Fetch.{max_op_frame_size, OpFrame}
use jj_mesh.Repo.Transfer.Batch.{
  or_else, wire_failure, begin_twice, begin_after_data, want_not_sent, OpBatch, Codecs,
}
use jj_mesh.Repo.Transfer.Receive.Frames.{
  max_op_frames, start_receiving, receive_begin, receive_view, receive_op, Receiving,
}
use jj_mesh.Repo.Transfer.Reachable.Defs.{ids, ensure_batch_reachable}
use jj_mesh.Repo.Transfer.Reachable.Laws.{FromWants, ensure_batch_reachable_iff}
use jj_mesh.Repo.Transfer.Receive.Loop.{
  wants_held, finish, receive_frame, receive_rounds, receive_ops,
}
use jj_mesh.Repo.Transfer.Receive.Accepted.{IsBatch, IsReceiving}
use jj_mesh.Repo.Transfer.Receive.Preserve.{IsReceiving-same, receive_view_keeps, receive_op_keeps}

module _ (jj : Jj) (codecs : Codecs) (repo : OpenRepo) (wants : List CommitId) where
  pub record IsAccepted (batch : OpBatch) : Type 0 where
    pub is_batch : IsBatch jj repo batch.ops batch.views
    pub wants_here :
        (w : CommitId)
        → has_id w wants ≡ true
        → (has_id w (ids batch.ops) || has_operation repo w) ≡ true
    pub from_wants : (x : CommitId) → has_id x (ids batch.ops) ≡ true → FromWants batch.ops wants x

  pub IsReceiving-start : IsReceiving jj repo start_receiving
  IsReceiving-start = record {
    op_ids = λ x. refl;
    view_ids = λ x. refl;
    batch = record {
      distinct = tt;
      valid = tt;
      parents_first = tt;
      valid_views = tt;
      have_views = tt;
    };
  }

  abbrev StepKeeps : Receiving ⊎ OpBatch → Type 0
  StepKeeps (inl r) = IsReceiving jj repo r
  StepKeeps (inr batch) = IsAccepted batch

  finish_accepts :
      (r : Receiving) (batch : OpBatch)
      → IsReceiving jj repo r
      → finish jj codecs repo wants r ≡ ok batch
      → IsAccepted batch
  finish_accepts r batch i h =
      let (_, held, h₁) =
        >>=-eq-ok (ensure (wants_held jj codecs repo wants r) want_not_sent) _ h in
      let made : OpBatch = record { ops = r.ops; views = r.views } in
      let (_, reached, h₂) = >>=-eq-ok (ensure_batch_reachable wants made) _ h₁ in
      let e : made ≡ batch = ground arith in
      let result : IsAccepted made = record {
        is_batch = i.batch;
        wants_here = λ w m.
            let holds_all = ensure-eq-ok (wants_held jj codecs repo wants r) want_not_sent held in
            let one =
              all-has_id (λ want. has_id want r.op_ids || has_operation repo want) w wants holds_all
                m in
            ground (arith, i.op_ids w);
        from_wants = (ensure_batch_reachable_iff wants made i.batch.distinct).0 reached;
      } in
      rw e at result

  begin_keeps :
      (r s : Receiving) (ops views : ℕ)
      → IsReceiving jj repo r
      → receive_begin r ops views ≡ ok s
      → IsReceiving jj repo s
  begin_keeps r s ops views i h =
      let (_, _, h₁) = >>=-eq-ok (ensure (not r.begun) begin_twice) _ h in
      let (_, _, h₂) = >>=-eq-ok (ensure (not r.data_seen) begin_after_data) _ h₁ in
      IsReceiving-same jj codecs repo r s (ground arith) (ground arith) (ground arith)
        (ground arith) i

  frame_keeps :
      (r : Receiving) (frame : OpFrame) (next : Receiving ⊎ OpBatch)
      → IsReceiving jj repo r
      → receive_frame jj codecs repo wants r frame ≡ ok next
      → StepKeeps next
  unfolding receive_frame
  frame_keeps r (OpFrame.op_begin ops views) next i h =
      let (s, e, k) = >>=-eq-ok (receive_begin r ops views) _ h in
      let same : inl s ≡ next = ground arith in
      subst StepKeeps (same) (begin_keeps r s ops views i e)
  frame_keeps r (OpFrame.view_frame id payload) next i h =
      let (s, e, k) = >>=-eq-ok (receive_view jj codecs repo r id payload) _ h in
      let same : inl s ≡ next = ground arith in
      subst StepKeeps (same) (receive_view_keeps jj codecs repo r s id payload i e)
  frame_keeps r (OpFrame.op_frame id payload) next i h =
      let (s, e, k) = >>=-eq-ok (receive_op jj codecs repo r id payload) _ h in
      let same : inl s ≡ next = ground arith in
      subst StepKeeps (same) (receive_op_keeps jj codecs repo r s id payload i e)
  frame_keeps r OpFrame.op_done next i h =
      let (batch, e, k) = >>=-eq-ok (finish jj codecs repo wants r) _ h in
      let same : inr batch ≡ next = ground arith in
      subst StepKeeps (same) (finish_accepts r batch i e)
  frame_keeps r (OpFrame.op_error message) next i h = cc

  step_accepts :
      (rounds : ℕ) (stream : Bytes) (next : Receiving ⊎ OpBatch) (rest : Bytes) (batch : OpBatch)
      → ((r : Receiving) (stream' rest' : Bytes) (b : OpBatch)
          → IsReceiving jj repo r
          → receive_rounds jj codecs repo wants rounds r stream' ≡ ok (b, rest')
          → IsAccepted b)
      → StepKeeps next
      → elim next [
        | inl after_frame ↦ receive_rounds jj codecs repo wants rounds after_frame stream
        | inr b ↦ ok (b, stream)
      ]
        ≡ ok (batch, rest)
      → IsAccepted batch
  step_accepts rounds stream (inl r) rest batch ih keeps h = ih r stream rest batch keeps h
  step_accepts rounds stream (inr b) rest batch ih keeps h =
      let same : b ≡ batch = ground arith in rw same at keeps

  rounds_accept :
      (rounds : ℕ) (r : Receiving) (stream rest : Bytes) (batch : OpBatch)
      → IsReceiving jj repo r
      → receive_rounds jj codecs repo wants rounds r stream ≡ ok (batch, rest)
      → IsAccepted batch
  unfolding receive_rounds
  rounds_accept zero r stream rest batch i h = cc
  rounds_accept (suc rounds) r stream rest batch i h =
      let (taken, _, h₁) =
        >>=-eq-ok
          (or_else wire_failure (read_message codecs.decode_op_frame max_op_frame_size stream)) _
          h in
      let (next, e, h₂) = >>=-eq-ok (receive_frame jj codecs repo wants r taken.0) _ h₁ in
      step_accepts rounds taken.1 next rest batch (rounds_accept rounds)
        (frame_keeps r taken.0 next i e) h₂

-- When a fetch gets a batch out of the frames of a peer, no operation stands in it twice and each has a
-- proper id that is not the root's; its operations and views are what the codec reads of their bytes; every
-- parent comes before, is the root or is stored; every view is in the batch or is stored; every want is in the
-- batch or is stored; and each operation is reached from a want.
pub receive_ops_safe :
    (jj : Jj) (codecs : Codecs) (repo : OpenRepo) (wants : List CommitId) (stream rest : Bytes)
    (batch : OpBatch)
    → receive_ops jj codecs repo wants stream ≡ ok (batch, rest)
    → IsAccepted jj codecs repo wants batch
unfolding receive_ops
receive_ops_safe jj codecs repo wants stream rest batch h =
    rounds_accept jj codecs repo wants max_op_frames start_receiving stream rest batch
      (IsReceiving-start jj codecs repo wants) h
