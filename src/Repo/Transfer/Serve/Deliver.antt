-- ===== src/Repo/Transfer/Serve/Deliver.antt =====
-- The lemmas on the frames of `produce_ops`.
use mathlib.Core.List.{append_assoc}
use jj_mesh.Prelude.{
  ◌>>=◌, ok, nat_ord, bool_ord, pair_ord, list_ord, option_ord, reverse_ord, Bool-cases, length,
  all, ℕ, suc, ◌+◌, ◌≡◌, refl, ◌∙◌, inl, inr, true, false, none, List, [], ◌∷◌, ◌++◌, arith,
}
use jj_mesh.Config.Machine.{text_eq_sound}
use jj_mesh.Repo.Codec.Messages.{CommitId, Operation}
use jj_mesh.Repo.Codec.Ids.{has_id}
use jj_mesh.Repo.Store.Defs.{Bytes, read_operation_bytes, OpenRepo, Jj}
use jj_mesh.Net.Fetch.{OpFrame}
use jj_mesh.Repo.Transfer.Batch.{StoredOp, Codecs, RoundTrips}
use jj_mesh.Repo.Transfer.Receive.Frames.{counted, push_view, push_op, has_parent, Receiving}
use jj_mesh.Repo.Transfer.Receive.Loop.{receive_frame, receive_rounds}
use jj_mesh.Repo.Transfer.Receive.Accepted.{IsReceiving}
use jj_mesh.Repo.Transfer.Receive.Preserve.{receive_view_keeps, receive_op_keeps}
use jj_mesh.Repo.Transfer.Serve.Phase.{op_phase_frame, send_frames, Produced}
use jj_mesh.Repo.Transfer.Serve.Ops.{Describe, then_frames, view_frames, or_fail}
use jj_mesh.Repo.Transfer.Serve.Order.{HasViewFile, IsServable}
use jj_mesh.Repo.Transfer.Serve.Honest.{
  sent_lem, round_lem, receive_view_lem, receive_op_lem, IsSent,
}

module _ (jj : Jj) (codecs : Codecs) (trips : RoundTrips codecs) (describe : Describe)
    (server fetcher : OpenRepo) (wants : List CommitId) where
  -- What a producer sends is received: the variables of the loop at the end, with the operations.
  pub record Delivered (r : Receiving) (p : Produced OpFrame) (all_ops : List StoredOp)
      : Type 0 where
    pub no_failure : p.failure ≡ none
    pub bytes : Bytes
    pub sends : send_frames (op_phase_frame codecs) p.frames ≡ ok bytes
    pub last : Receiving
    pub receiving : IsReceiving jj fetcher last
    pub last_ops : last.ops ≡ all_ops
    pub rounds :
        (n : ℕ) (rest : Bytes)
        → receive_rounds jj codecs fetcher wants (length p.frames + n) r (bytes ++ rest)
          ≡ receive_rounds jj codecs fetcher wants n last rest

  pub Delivered-frame :
      (r next : Receiving) (frame : OpFrame) (p : Produced OpFrame) (all_ops : List StoredOp)
      → IsSent jj codecs trips server fetcher wants frame
      → receive_frame jj codecs fetcher wants r frame ≡ ok (inl next)
      → Delivered next p all_ops
      → Delivered r (then_frames (frame ∷ []) p) all_ops
  unfolding send_frames
  Delivered-frame r next frame p all_ops s h d = record {
    no_failure = d.no_failure;
    bytes = s.bytes ++ d.bytes;
    sends = rw (s.sends, d.sends) refl;
    last = d.last;
    receiving = d.receiving;
    last_ops = d.last_ops;
    rounds = λ n rest.
        let more : suc (length p.frames) + n ≡ suc (length p.frames + n) = omega arith in
        let one =
          round_lem jj codecs trips server fetcher wants (length p.frames + n) r next frame
            (d.bytes ++ rest) s h in
        rw (more, append_assoc s.bytes d.bytes rest) (one ∙ d.rounds n rest);
  }

  pub Delivered-op :
      (r : Receiving) (sent_views : List CommitId) (id : CommitId) (op : Operation) (o : StoredOp)
      (os : List StoredOp) (p : Produced OpFrame)
      → (s : IsServable jj codecs server fetcher id op o) → IsReceiving jj fetcher r
      → has_id id r.op_ids ≡ false
      → all (has_parent fetcher r.op_ids) op.parents ≡ true
      → has_id op.view_id r.view_ids ≡ true
      → ((next : Receiving)
          → IsReceiving jj fetcher next
          → next.op_ids ≡ id ∷ r.op_ids
          → next.view_ids ≡ r.view_ids
          → Delivered next p (next.ops ++ os))
      → Delivered r
          (or_fail codecs describe
            (read_operation_bytes server id >>= λ bytes.
              ok (OpFrame.op_frame id (codecs.compress bytes) ∷ []))
            p)
          (r.ops ++ o ∷ os)
  unfolding receive_frame
  Delivered-op r sent_views id op o os p s i fresh parents view later =
      let payload = codecs.compress o.bytes in
      let next = push_op (counted r payload) id o.bytes o.meta in
      let taken =
        receive_op_lem jj codecs trips server fetcher wants r id op o s fresh parents view in
      let frame = OpFrame.op_frame id payload in
      let accepts : receive_frame jj codecs fetcher wants r frame ≡ ok (inl next) = rw taken refl in
      let kept = receive_op_keeps jj codecs fetcher r next id payload i taken in
      let same : next.ops ++ os ≡ r.ops ++ o ∷ os =
        rw (← s.same_id) (append_assoc r.ops (o ∷ []) os) in
      rw (s.stored, ← same)
        (Delivered-frame r next frame p (next.ops ++ os)
          (sent_lem jj codecs trips server fetcher wants frame s.frame_size) accepts
          (later next kept refl refl))

  -- The view comes first, unless it was sent.
  pub Delivered-view :
      (r : Receiving) (sent_views : List CommitId) (id : CommitId) (p : Produced OpFrame)
      (all_ops : List StoredOp)
      → HasViewFile jj codecs server fetcher id
      → IsReceiving jj fetcher r
      → ((x : CommitId) → has_id x r.view_ids ≡ has_id x sent_views)
      → ((next : Receiving)
          → IsReceiving jj fetcher next
          → next.ops ≡ r.ops
          → next.op_ids ≡ r.op_ids
          → ((x : CommitId) → has_id x next.view_ids ≡ has_id x (id ∷ sent_views))
          → Delivered next p all_ops)
      → Delivered r
          (or_fail codecs describe (view_frames codecs describe server sent_views id) p)
          all_ops
  unfolding receive_frame
  Delivered-view r sent_views id p all_ops v i sync later =
      elim (Bool-cases (has_id id sent_views)) [
        | inl old ↦ rw old (later r i refl refl (λ x. ground (arith, sync x, text_eq_sound x id)))
        | inr new ↦
            let payload = codecs.compress v.bytes in
            let start = counted r payload in
            let taken = receive_view_lem jj codecs trips server fetcher wants r id v in
            let frame = OpFrame.view_frame id payload in
            let next = push_view start id v.bytes v.meta in
            let fresh : has_id id r.view_ids ≡ false = ground (arith, sync id) in
            let accepts : receive_frame jj codecs fetcher wants r frame ≡ ok (inl next) =
              rw taken refl in
            let kept = receive_view_keeps jj codecs fetcher r next id payload i taken in
            rw (new, v.stored)
              (Delivered-frame r next frame p all_ops
                (sent_lem jj codecs trips server fetcher wants frame v.frame_size) accepts
                (later next kept (rw fresh refl) (rw fresh refl)
                  (λ x. rw fresh (ground (arith, sync x)))))
      ]
