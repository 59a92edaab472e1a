-- ===== src/Repo/Transfer/Receive/Preserve.antt =====
-- The lemmas on `receive_frame`.
use jj_mesh.Prelude.{
  ensure, >>=-eq-ok, ensure-eq-ok, Result, ok, err, nat_ord, bool_ord, pair_ord, list_ord,
  option_ord, reverse_ord, ◌==◌, Bool-cases, length, all, All-map, ◌≡◌, refl, ap, inl, inr, true,
  false, not, List, [], ◌∷◌, ◌++◌, arith,
}
use jj_mesh.Repo.Codec.Messages.{CommitId}
use jj_mesh.Repo.Codec.Ids.{has_id, parse_operation}
use jj_mesh.Repo.Codec.Views.{parse_view}
use jj_mesh.Repo.Codec.Parsing.{view_ids}
use jj_mesh.Repo.Sets.{Distinct, text_eq_sym, has_id-append}
use jj_mesh.Repo.Store.Defs.{Bytes, is_root, id_len, has_view, OpenRepo, Jj}
use jj_mesh.Repo.Transfer.Batch.{
  or_else, store_failure, codec_failure, bad_id_length, claims_root, sent_twice, before_parent,
  unknown_view, StoredOp, StoredView, Codecs,
}
use jj_mesh.Repo.Transfer.Receive.Frames.{
  counted, push_view, push_op, op_payload, has_parent, receive_view, knows_view, receive_op,
  Receiving,
}
use jj_mesh.Repo.Transfer.Reachable.Defs.{ids}
use jj_mesh.Repo.Transfer.Receive.Accepted.{
  after_ops, after_ops_lem, ParentsFirst-concat, all-imp, ids-append, All-concat, view_ids_of,
  is_local, HasView, IsValidOp, IsValidView, IsReceiving,
}

pub or_else-eq-ok :
    {E F A : Type 0} (f : E → F) (r : Result E A) (a : A) → or_else f r ≡ ok a → r ≡ ok a
or_else-eq-ok f (ok b) a h = ground arith
or_else-eq-ok f (err e) a h = cc

Distinct-concat :
    (xs : List CommitId) (x : CommitId)
    → Distinct xs
    → has_id x xs ≡ false
    → Distinct (xs ++ x ∷ [])
Distinct-concat [] x d h = (refl, tt)
Distinct-concat (y ∷ ys) x d h = (
  ground (arith, has_id-append y ys (x ∷ []), text_eq_sym x y, d.0),
  Distinct-concat ys x (d.1) (ground arith),
)

module _ (jj : Jj) (codecs : Codecs) (repo : OpenRepo) where
  view_ids_of-append :
      (vs : List StoredView) (v : StoredView)
      → view_ids_of (vs ++ v ∷ []) ≡ view_ids_of vs ++ v.id ∷ []
  view_ids_of-append [] v = refl
  view_ids_of-append (w ∷ vs) v = ap (λ l. w.id ∷ l) (view_ids_of-append vs v)

  HasView-more :
      (vs : List StoredView) (v : StoredView) (o : StoredOp)
      → HasView jj repo (view_ids_of vs) o
      → HasView jj repo (view_ids_of (vs ++ v ∷ [])) o
  HasView-more vs v o (inl h) = inl (
      rw (view_ids_of-append vs v)
        (ground (arith, has_id-append o.meta.view_id (view_ids_of vs) (v.id ∷ []))))
  HasView-more vs v o (inr h) = inr h

  IsReceiving-view :
      (r : Receiving) (v : StoredView)
      → IsReceiving jj repo r
      → IsValidView jj repo v
      → IsReceiving jj repo (push_view r v.id v.bytes v.meta)
  IsReceiving-view r v i ok_view = elim (Bool-cases (has_id v.id r.view_ids)) [
    | inl old ↦ rw old i
    | inr new ↦ rw new (record {
      op_ids = i.op_ids;
      view_ids = λ x.
          rw (view_ids_of-append r.views v)
            (ground (arith, i.view_ids x, has_id-append x (view_ids_of r.views) (v.id ∷ [])));
      batch = record {
        distinct = i.batch.distinct;
        valid = i.batch.valid;
        parents_first = i.batch.parents_first;
        valid_views = All-concat (IsValidView jj repo) r.views v i.batch.valid_views ok_view;
        have_views = All-map (HasView-more r.views v) r.ops i.batch.have_views;
      };
    })
  ]

  pub IsReceiving-op :
      (r : Receiving) (o : StoredOp)
      → IsReceiving jj repo r
      → IsValidOp jj repo o
      → has_id o.id r.op_ids ≡ false
      → all (has_parent repo r.op_ids) o.meta.parents ≡ true
      → HasView jj repo (view_ids_of r.views) o
      → IsReceiving jj repo (push_op r o.id o.bytes o.meta)
  IsReceiving-op r o i ok_op fresh parents seen = record {
    op_ids = λ x.
        rw (ids-append r.ops (o ∷ []))
          (ground (arith, i.op_ids x, has_id-append x (ids r.ops) (o.id ∷ [])));
    view_ids = i.view_ids;
    batch = record {
      distinct =
          rw (ids-append r.ops (o ∷ []))
            (Distinct-concat (ids r.ops) o.id i.batch.distinct (ground (arith, i.op_ids o.id)));
      valid = All-concat (IsValidOp jj repo) r.ops o i.batch.valid ok_op;
      parents_first = ParentsFirst-concat (is_local repo) r.ops o i.batch.parents_first (
          all-imp (has_parent repo r.op_ids) (after_ops (is_local repo) r.ops) o.meta.parents
            (λ x h. ground (arith, after_ops_lem (is_local repo) r.ops x, i.op_ids x)) parents);
      valid_views = i.batch.valid_views;
      have_views =
          All-concat (HasView jj repo (view_ids_of r.views)) r.ops o i.batch.have_views seen;
    };
  }

  pub IsReceiving-same :
      (r s : Receiving)
      → r.ops ≡ s.ops
      → r.views ≡ s.views
      → r.op_ids ≡ s.op_ids
      → r.view_ids ≡ s.view_ids
      → IsReceiving jj repo r
      → IsReceiving jj repo s
  IsReceiving-same r s a b c d i = record {
    op_ids = λ x. rw (← a, ← c) (i.op_ids x);
    view_ids = λ x. rw (← b, ← d) (i.view_ids x);
    batch = rw (← a, ← b) i.batch;
  }

  pub IsReceiving-counted :
      (r : Receiving) (payload : Bytes)
      → IsReceiving jj repo r
      → IsReceiving jj repo (counted r payload)
  IsReceiving-counted r payload i = IsReceiving-same r (counted r payload) refl refl refl refl i

  pub receive_view_keeps :
      (r next : Receiving) (id : CommitId) (payload : Bytes)
      → IsReceiving jj repo r
      → receive_view jj codecs repo r id payload ≡ ok next
      → IsReceiving jj repo next
  unfolding receive_view
  receive_view_keeps r next id payload i h =
      let (_, size, h₁) = >>=-eq-ok (ensure (length id == id_len repo) bad_id_length) _ h in
      let (bytes, _, h₂) = >>=-eq-ok (op_payload codecs payload) _ h₁ in
      let (meta, parsed, h₃) =
        >>=-eq-ok (or_else codec_failure (parse_view jj.is_known jj.decode_view bytes)) _ h₂ in
      let v : StoredView = record { id = id; bytes = bytes; meta = meta } in
      let valid : IsValidView jj repo v = record {
        size = ground (arith, ensure-eq-ok (length id == id_len repo) bad_id_length size);
        parsed =
            or_else-eq-ok codec_failure (parse_view jj.is_known jj.decode_view bytes) meta parsed;
      } in
      let made = IsReceiving-view (counted r payload) v (IsReceiving-counted r payload i) valid in
      let e : push_view (counted r payload) id bytes meta ≡ next = ground arith in rw e at made

  has_of_knows :
      (view_ids : List CommitId) (vs : List StoredView) (o : StoredOp)
      → ((x : CommitId) → has_id x view_ids ≡ has_id x (view_ids_of vs))
      → knows_view jj codecs repo view_ids o.meta.view_id ≡ ok true
      → HasView jj repo (view_ids_of vs) o
  has_of_knows view_ids vs o same h = elim (Bool-cases (has_id o.meta.view_id view_ids)) [
    | inl e ↦ inl (ground (arith, same o.meta.view_id))
    | inr e ↦ inr (or_else-eq-ok store_failure (has_view jj repo o.meta.view_id) true (rw e at h))
  ]

  pub receive_op_keeps :
      (r next : Receiving) (id : CommitId) (payload : Bytes)
      → IsReceiving jj repo r
      → receive_op jj codecs repo r id payload ≡ ok next
      → IsReceiving jj repo next
  unfolding receive_op
  receive_op_keeps r next id payload i h =
      let (_, size, h₁) = >>=-eq-ok (ensure (length id == id_len repo) bad_id_length) _ h in
      let (_, proper, h₂) = >>=-eq-ok (ensure (not (is_root repo id)) claims_root) _ h₁ in
      let (bytes, _, h₃) = >>=-eq-ok (op_payload codecs payload) _ h₂ in
      let (meta, parsed, h₄) =
        >>=-eq-ok (or_else codec_failure (parse_operation jj.decode_operation bytes)) _ h₃ in
      let (_, fresh, h₅) = >>=-eq-ok (ensure (not (has_id id r.op_ids)) sent_twice) _ h₄ in
      let (_, parents, h₆) =
        >>=-eq-ok (ensure (all (has_parent repo r.op_ids) meta.parents) before_parent) _ h₅ in
      let (known, seen, h₇) = >>=-eq-ok (knows_view jj codecs repo r.view_ids meta.view_id) _ h₆ in
      let (_, has, h₈) = >>=-eq-ok (ensure known unknown_view) _ h₇ in
      let o : StoredOp = record { id = id; bytes = bytes; meta = meta } in
      let valid : IsValidOp jj repo o = record {
        size = ground (arith, ensure-eq-ok (length id == id_len repo) bad_id_length size);
        not_root = ground (arith, ensure-eq-ok (not (is_root repo id)) claims_root proper);
        parsed =
            or_else-eq-ok codec_failure (parse_operation jj.decode_operation bytes) meta parsed;
      } in
      let sure = ensure-eq-ok known unknown_view has in
      let made =
        IsReceiving-op (counted r payload) o (IsReceiving-counted r payload i) valid
          (ground (arith, ensure-eq-ok (not (has_id id r.op_ids)) sent_twice fresh))
          (ensure-eq-ok (all (has_parent repo r.op_ids) meta.parents) before_parent parents)
          (has_of_knows r.view_ids r.views o i.view_ids (rw sure at seen)) in
      let e : push_op (counted r payload) id bytes meta ≡ next = ground arith in rw e at made
