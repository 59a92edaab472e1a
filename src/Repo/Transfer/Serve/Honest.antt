-- ===== src/Repo/Transfer/Serve/Honest.antt =====
-- The lemmas on what the fetcher makes of one frame of the operation phase.
use jj_mesh.Prelude.{
  ok, nat_ord, bool_ord, pair_ord, list_ord, option_ord, reverse_ord, ◌==◌, length, all, ℕ, suc,
  ◌≤◌, ◌≡◌, refl, inl, true, false, some, List, ◌++◌, arith,
}
use jj_mesh.Repo.Codec.Messages.{CommitId, Operation}
use jj_mesh.Repo.Codec.Ids.{has_id}
use jj_mesh.Repo.Store.Defs.{Bytes, id_len, OpenRepo, Jj}
use jj_mesh.Net.Wire.{to_le_bytes, write_message, read_message, read-write_message}
use jj_mesh.Net.Fetch.{max_op_frame_size, decompress_payload_lem, OpFrame}
use jj_mesh.Repo.Transfer.Batch.{StoredOp, Codecs, RoundTrips}
use jj_mesh.Repo.Transfer.Receive.Frames.{
  counted, push_view, push_op, op_payload, has_parent, receive_view, receive_op, Receiving,
}
use jj_mesh.Repo.Transfer.Receive.Loop.{receive_frame, receive_rounds}
use jj_mesh.Repo.Transfer.Serve.Phase.{op_phase_frame, send_frame}
use jj_mesh.Repo.Transfer.Serve.Order.{HasViewFile, IsServable}

module _ (jj : Jj) (codecs : Codecs) (trips : RoundTrips codecs) (server fetcher : OpenRepo)
    (wants : List CommitId) where
  -- A frame that was sent, and that is read back
  pub record IsSent (frame : OpFrame) : Type 0 where
    pub bytes : Bytes
    pub sends : send_frame (op_phase_frame codecs) frame ≡ ok bytes
    pub reads :
        (rest : Bytes)
        → read_message codecs.decode_op_frame max_op_frame_size (bytes ++ rest) ≡ ok (frame, rest)

  pub sent_lem :
      (frame : OpFrame) → length (codecs.encode_op_frame frame) ≤ max_op_frame_size → IsSent frame
  unfolding send_frame write_message
  sent_lem frame h =
      let encoded = codecs.encode_op_frame frame in
      let written : Bytes = to_le_bytes (length encoded) ++ encoded in
      let e : write_message codecs.encode_op_frame max_op_frame_size frame ≡ some (ok written) =
        ground arith in
      record {
        bytes = written;
        sends = rw e refl;
        reads = λ rest.
            read-write_message codecs.encode_op_frame codecs.decode_op_frame max_op_frame_size frame
              written rest (trips.decode-op_frame frame) e;
      }

  pub round_lem :
      (rounds : ℕ) (r next : Receiving) (frame : OpFrame) (rest : Bytes)
      → (s : IsSent frame) → receive_frame jj codecs fetcher wants r frame ≡ ok (inl next)
      → receive_rounds jj codecs fetcher wants (suc rounds) r (s.bytes ++ rest)
        ≡ receive_rounds jj codecs fetcher wants rounds next rest
  unfolding receive_rounds
  round_lem rounds r next frame rest s h = rw (s.reads rest, h) refl

  payload_lem :
      (bytes : Bytes)
      → length bytes ≤ max_op_frame_size
      → op_payload codecs (codecs.compress bytes) ≡ ok bytes
  payload_lem bytes h =
      let d =
        (decompress_payload_lem codecs.decoder (codecs.compress bytes) max_op_frame_size
            (omega arith)).1
          bytes true (trips.decoder-compress bytes) in
      rw (d.0 refl h) refl

  pub receive_view_lem :
      (r : Receiving) (id : CommitId) (v : HasViewFile jj codecs server fetcher id)
      → receive_view jj codecs fetcher r id (codecs.compress v.bytes)
        ≡ ok (push_view (counted r (codecs.compress v.bytes)) id v.bytes v.meta)
  unfolding receive_view
  receive_view_lem r id v =
      let size : (length id == id_len fetcher) ≡ true = ground (arith, v.id_size) in
      rw (size, payload_lem v.bytes v.size, v.parsed) refl

  pub receive_op_lem :
      (r : Receiving) (id : CommitId) (op : Operation) (o : StoredOp)
      → IsServable jj codecs server fetcher id op o
      → has_id id r.op_ids ≡ false
      → all (has_parent fetcher r.op_ids) op.parents ≡ true
      → has_id op.view_id r.view_ids ≡ true
      → receive_op jj codecs fetcher r id (codecs.compress o.bytes)
        ≡ ok (push_op (counted r (codecs.compress o.bytes)) id o.bytes o.meta)
  unfolding receive_op
  receive_op_lem r id op o s fresh parents view =
      let size : (length id == id_len fetcher) ≡ true = ground (arith, s.id_size) in
      let known : all (has_parent fetcher r.op_ids) o.meta.parents ≡ true =
        rw s.same_parents parents in
      let seen : has_id o.meta.view_id r.view_ids ≡ true = rw s.same_view view in
      rw (size, s.not_root, payload_lem o.bytes s.size, s.parsed, fresh, known, seen) refl
