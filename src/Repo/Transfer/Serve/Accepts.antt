-- ===== src/Repo/Transfer/Serve/Accepts.antt =====
-- The lemmas on `serve_phase` and the `receive_ops` of the fetcher.
use mathlib.Core.Path.{subst}
use mathlib.Core.List.{append-nil, append_assoc}
use jj_mesh.Prelude.{
  ◌>>=◌, ok, nat_ord, bool_ord, pair_ord, list_ord, option_ord, reverse_ord, length, all, ℕ, suc,
  ◌+◌, ◌-◌, ◌*◌, ◌≤◌, ◌≡◌, refl, sym, ap, ◌∙◌, true, ◌||◌, some, List, [], ◌∷◌, ◌++◌, arith,
}
use jj_mesh.Config.Name.{Text}
use jj_mesh.Repo.Codec.Messages.{CommitId, Operation}
use jj_mesh.Repo.Codec.Ids.{has_id}
use jj_mesh.Repo.Sets.{has_id_self}
use jj_mesh.Repo.Store.Defs.{Bytes, has_operation, read_operation_bytes, OpenRepo, Jj}
use jj_mesh.Net.Fetch.{max_op_frame_size, OpFrame}
use jj_mesh.Repo.Transfer.Batch.{
  start_progress, TransferPhase, StoredOp, StoredView, OpBatch, Codecs, RoundTrips,
}
use jj_mesh.Repo.Transfer.Receive.Frames.{
  max_op_frames, saturating_add, start_receiving, has_parent, Receiving,
}
use jj_mesh.Repo.Transfer.Reachable.Defs.{ids, ensure_batch_reachable}
use jj_mesh.Repo.Transfer.Reachable.Laws.{ensure_batch_reachable_iff}
use jj_mesh.Repo.Transfer.Receive.Loop.{
  wants_held, finish, receive_frame, receive_rounds, receive_ops,
}
use jj_mesh.Repo.Transfer.Receive.Accepted.{all-imp, IsReceiving}
use jj_mesh.Repo.Transfer.Receive.Preserve.{IsReceiving-same}
use jj_mesh.Repo.Transfer.Receive.Safe.{IsReceiving-start}
use jj_mesh.Repo.Transfer.Serve.Phase.{op_phase_frame, send_frames, serve_phase, Produced}
use jj_mesh.Repo.Transfer.Serve.Ops.{
  Describe, distinct_views, view_frames, or_fail, produce_ops, produce_delta,
}
use jj_mesh.Repo.Transfer.Serve.Order.{IsDelta, IsLinked, linked_lem}
use jj_mesh.Repo.Transfer.Serve.Honest.{sent_lem, IsSent}
use jj_mesh.Repo.Transfer.Serve.Deliver.{Delivered-frame, Delivered-op, Delivered-view, Delivered}

module _ (jj : Jj) (codecs : Codecs) (trips : RoundTrips codecs) (describe : Describe)
    (server fetcher : OpenRepo) (wants : List CommitId) where
  abbrev Gets : Receiving → Produced OpFrame → List StoredOp → Type 0
  Gets = Delivered jj codecs trips describe server fetcher wants

  deliver :
      (r : Receiving) (seen sent_views : List CommitId) (ops : List (CommitId × Operation))
      (os : List StoredOp)
      → IsReceiving jj fetcher r
      → ((x : CommitId) → has_id x r.op_ids ≡ has_id x seen)
      → ((x : CommitId) → has_id x r.view_ids ≡ has_id x sent_views)
      → IsDelta jj codecs server fetcher seen ops os
      → Gets r (produce_ops codecs describe server sent_views ops) (r.ops ++ os)
  unfolding produce_ops
  deliver r seen sent_views [] [] i a b d = record {
    no_failure = refl;
    bytes = [];
    sends = unfold send_frames in refl;
    last = r;
    receiving = i;
    last_ops = sym (append-nil r.ops);
    rounds = λ n rest. let e : 0 + n ≡ n = omega arith in rw e refl;
  }
  deliver r seen sent_views [] (o ∷ os) i a b d = absurd d
  deliver r seen sent_views (e ∷ ops) [] i a b d = absurd d
  deliver r seen sent_views ((id, op) ∷ ops) (o ∷ os) i a b (s, fresh, parents, rest) =
      Delivered-view jj codecs trips describe server fetcher wants r sent_views op.view_id _
        (r.ops ++ o ∷ os) s.view i b
        (λ next i₁ same_ops same_ids views. rw (← same_ops) (
          Delivered-op jj codecs trips describe server fetcher wants next sent_views id op o os
            (produce_ops codecs describe server (op.view_id ∷ sent_views) ops) s i₁
            (rw same_ids (a id ∙ fresh))
            (all-imp (has_parent fetcher seen) (has_parent fetcher next.op_ids) op.parents
              (λ x h. rw same_ids (ground (arith, a x))) parents)
            (views op.view_id ∙ has_id_self op.view_id sent_views)
            (λ last i₂ ids₂ views₂.
              deliver last (id ∷ seen) (op.view_id ∷ sent_views) ops os i₂
                (λ x. rw (ids₂, same_ids) (ground (arith, a x))) (λ x. rw views₂ (views x)) rest)))

  finish_lem :
      (last : Receiving) (os : List StoredOp)
      → IsReceiving jj fetcher last
      → last.ops ≡ os
      → IsLinked wants os
      → all (λ w. has_id w (ids os) || has_operation fetcher w) wants ≡ true
      → finish jj codecs fetcher wants last ≡ ok (record { ops = last.ops; views = last.views })
  finish_lem last os i e linked held =
      let batch : OpBatch = record { ops = last.ops; views = last.views } in
      let here : wants_held jj codecs fetcher wants last ≡ true =
        all-imp (λ w. has_id w (ids os) || has_operation fetcher w)
          (λ w. has_id w last.op_ids || has_operation fetcher w) wants
          (λ w h. ground (arith, i.op_ids w, ap (λ l. has_id w (ids l)) e)) held in
      let reached : ensure_batch_reachable wants batch ≡ ok tt =
        (ensure_batch_reachable_iff wants batch i.batch.distinct).1
          (linked_lem wants last.ops i.batch.distinct (rw e linked)) in
      rw (here, reached) refl

  length-view_frames :
      (sent_views : List CommitId) (id : CommitId) (p : Produced OpFrame)
      → length (or_fail codecs describe (view_frames codecs describe server sent_views id) p).frames
        ≤ length p.frames + 1
  length-view_frames sent_views id p = ground arith

  length-produce_ops :
      (sent_views : List CommitId) (ops : List (CommitId × Operation))
      → length (produce_ops codecs describe server sent_views ops).frames ≤ 2 * length ops
  unfolding produce_ops
  length-produce_ops sent_views [] = omega arith
  length-produce_ops sent_views ((id, op) ∷ ops) =
      let rest = produce_ops codecs describe server (op.view_id ∷ sent_views) ops in
      let inner =
        or_fail codecs describe
          (read_operation_bytes server id >>= λ bytes.
            ok (OpFrame.op_frame id (codecs.compress bytes) ∷ []))
          rest in
      let one : length inner.frames ≤ length rest.frames + 1 = ground arith in
      omega (
        arith,
        length-view_frames sent_views op.view_id inner,
        one,
        length-produce_ops (op.view_id ∷ sent_views) ops,
      )

  -- What the fetcher gets of the frames of a server
  pub record IsExchange (context : Text) (ops : List (CommitId × Operation)) (os : List StoredOp)
      : Type 0 where
    pub bytes : Bytes
    pub serves :
        serve_phase (op_phase_frame codecs) context (produce_delta codecs describe server (ok ops))
        ≡ ok (bytes, true)
    pub views : List StoredView
    pub receives :
        (rest : Bytes)
        → receive_ops jj codecs fetcher wants (bytes ++ rest)
          ≡ ok (record { ops = os; views = views }, rest)

  done_lem :
      (n : ℕ) (last : Receiving) (os : List StoredOp) (rest : Bytes)
      → (s : IsSent jj codecs trips server fetcher wants OpFrame.op_done)
      → finish jj codecs fetcher wants last ≡ ok (record { ops = last.ops; views = last.views })
      → last.ops ≡ os
      → receive_rounds jj codecs fetcher wants (suc n) last (s.bytes ++ rest)
        ≡ ok (record { ops = os; views = last.views }, rest)
  unfolding receive_rounds receive_frame
  done_lem n last os rest s h e = rw (s.reads rest, h, e) refl

  exchange_lem :
      (context : Text) (ops : List (CommitId × Operation)) (os : List StoredOp)
      → (begin : IsSent jj codecs trips server fetcher wants
          (OpFrame.op_begin (length ops) (length (distinct_views [] ops))))
      → (ends : IsSent jj codecs trips server fetcher wants OpFrame.op_done)
      → IsDelta jj codecs server fetcher [] ops os
      → IsLinked wants os
      → all (λ w. has_id w (ids os) || has_operation fetcher w) wants ≡ true
      → 2 * length ops + 2 ≤ max_op_frames
      → IsExchange context ops os
  unfolding serve_phase receive_ops receive_frame
  exchange_lem context ops os begin ends delta linked held small =
      let p = produce_ops codecs describe server [] ops in
      let first = OpFrame.op_begin (length ops) (length (distinct_views [] ops)) in
      let opened = record start_receiving {
        begun = true;
        counters = record (start_progress TransferPhase.ops_phase) {
          total = some (saturating_add (length ops) (length (distinct_views [] ops)));
        };
      } in
      let d =
        deliver opened [] [] ops os
          (IsReceiving-same jj codecs fetcher start_receiving opened refl refl refl refl
            (IsReceiving-start jj codecs fetcher wants))
          (λ x. refl) (λ x. refl) delta in
      let all_frames =
        Delivered-frame jj codecs trips describe server fetcher wants start_receiving opened first p
          os begin refl d in
      let last = all_frames.last in
      let fs = first ∷ p.frames in
      let k = max_op_frames - length fs - 1 in
      let sized : length fs + suc k ≡ max_op_frames = omega (arith, length-produce_ops [] ops) in
      let finished = finish_lem last os all_frames.receiving all_frames.last_ops linked held in
      record {
        bytes = all_frames.bytes ++ ends.bytes;
        serves = rw (all_frames.sends, all_frames.no_failure, ends.sends) refl;
        views = last.views;
        receives = λ rest.
            subst
              (λ n.
                receive_rounds jj codecs fetcher wants n start_receiving
                  ((all_frames.bytes ++ ends.bytes) ++ rest)
                ≡ ok (record { ops = os; views = last.views }, rest))
              (sized)
              (rw (append_assoc all_frames.bytes ends.bytes rest) (
                all_frames.rounds (suc k) (ends.bytes ++ rest)
                ∙ done_lem k last os rest ends finished all_frames.last_ops));
      }

-- When a server can read what it has to send, sends it parents first, each operation once, and each a want or
-- a parent of a later one, when the fetcher has the other parents, the ids and the frames have proper sizes, and
-- the frames are not too many, then the phase is served whole and the fetcher gets just these operations.
pub served_accepted :
    (jj : Jj) (codecs : Codecs) (trips : RoundTrips codecs) (describe : Describe)
    (server fetcher : OpenRepo) (wants : List CommitId) (context : Text)
    (ops : List (CommitId × Operation)) (os : List StoredOp)
    → length
        (codecs.encode_op_frame (OpFrame.op_begin (length ops) (length (distinct_views [] ops))))
      ≤ max_op_frame_size
    → length (codecs.encode_op_frame OpFrame.op_done) ≤ max_op_frame_size
    → IsDelta jj codecs server fetcher [] ops os
    → IsLinked wants os
    → all (λ w. has_id w (ids os) || has_operation fetcher w) wants ≡ true
    → 2 * length ops + 2 ≤ max_op_frames
    → IsExchange jj codecs trips describe server fetcher wants context ops os
served_accepted jj codecs trips describe server fetcher wants context ops os a b delta linked held
      small =
    exchange_lem jj codecs trips describe server fetcher wants context ops os
      (sent_lem jj codecs trips server fetcher wants
        (OpFrame.op_begin (length ops) (length (distinct_views [] ops))) a)
      (sent_lem jj codecs trips server fetcher wants OpFrame.op_done b) delta linked held small
