-- ===== src/Repo/Transfer/Apply/Stage.antt =====
-- The lemmas on the files that are staged for a batch that was received.
use jj_mesh.Prelude.{
  ensure, >>=-eq-ok, ensure-eq-ok, ok, get, contains_key, get-insert, nat_ord, bool_ord, pair_ord,
  list_ord, option_ord, reverse_ord, Bool-cases, Option-cases, length, is_empty, all, All, All-map,
  ◌≡◌, sym, ap, ◌∙◌, inl, inr, Bool, true, not, ◌||◌, some, List, [], ◌∷◌, arith,
}
use jj_mesh.Config.Machine.{text_eq, text_eq_sound}
use jj_mesh.Repo.Codec.Messages.{
  CommitId, bad_view_id, no_parents, bad_parent_id, Operation, View, OpMeta, ViewMeta,
}
use jj_mesh.Repo.Codec.Ids.{has_id, is_store_id, check_operation, parse_operation}
use jj_mesh.Repo.Codec.Views.{parse_view}
use jj_mesh.Repo.Codec.Soundness.{view_readable}
use jj_mesh.Repo.Codec.Parsing.{parse_view_lem}
use jj_mesh.Repo.Sets.{text_eq_refl}
use jj_mesh.Repo.Store.Defs.{Bytes, id_len, has_operation, has_view, OpenRepo, Jj}
use jj_mesh.Repo.Store.Writes.{place, persist, Dir, staged_file}
use jj_mesh.Repo.Transfer.Batch.{StoredOp, StoredView}
use jj_mesh.Repo.Transfer.Receive.Accepted.{
  ParentsFirst, all-imp, view_ids_of, is_local, IsValidOp, IsValidView,
}
use jj_mesh.Repo.Transfer.Apply.Closed.{
  Extends-local, Extends-place, IsEntire, IsClosed, Extends, ReadsStored,
}
use jj_mesh.Repo.Transfer.Apply.Staging.{Places, Extends-trans, Extends-persist, new_views, new_ops}

pub has_operation-place :
    (repo : OpenRepo) (id : CommitId) (bytes : Bytes)
    → length id ≡ id_len repo
    → has_operation (place repo (staged_file Dir.operations_dir id bytes)) id ≡ true
unfolding has_operation place
has_operation-place repo id bytes h =
    ground (arith, get-insert id id bytes repo.operations, text_eq_refl id)

pub has_operation-stored :
    (repo : OpenRepo) (id : CommitId)
    → length id ≡ id_len repo
    → contains_key id repo.operations ≡ true
    → has_operation repo id ≡ true
unfolding has_operation
has_operation-stored repo id h k = ground arith

module _ (jj : Jj) (reads : ReadsStored jj) where
  decoded_view :
      (bytes : Bytes) (meta : ViewMeta)
      → parse_view jj.is_known jj.decode_view bytes ≡ ok meta
      → (v : View) × (jj.load_view bytes ≡ some v)
  unfolding parse_view
  decoded_view bytes meta h = elim (Option-cases (jj.decode_view bytes)) [
    | inl e ↦ absurd (ground (arith, rw e at h))
    | inr (v, e) ↦ elim (Bool-cases (view_readable jj.is_known v)) [
      | inl readable ↦ (v, reads.reads_view bytes v e readable)
      | inr refused ↦
          let (_, fails) = parse_view_lem jj.is_known jj.decode_view bytes v e in
          absurd (ground (arith, rw h at (fails refused)))
    ]
  ]

  decoded_operation :
      (bytes : Bytes) (meta : OpMeta)
      → parse_operation jj.decode_operation bytes ≡ ok meta
      → (op : Operation) × (jj.load_operation bytes ≡ some op)
        × (op.parents ≡ meta.parents)
        × (op.view_id ≡ meta.view_id)
  unfolding parse_operation
  decoded_operation bytes meta h = elim (Option-cases (jj.decode_operation bytes)) [
    | inl e ↦ ground arith
    | inr (op, e) ↦
        let checked : check_operation op ≡ ok meta = ground arith in
        let (_, a, h₁) = >>=-eq-ok (ensure (is_store_id op.view_id) bad_view_id) _ checked in
        let (_, b, h₂) = >>=-eq-ok (ensure (not (is_empty op.parents)) no_parents) _ h₁ in
        let (_, c, h₃) = >>=-eq-ok (ensure (all is_store_id op.parents) bad_parent_id) _ h₂ in
        let some_parent = ensure-eq-ok (not (is_empty op.parents)) no_parents b in
        (
          op,
          reads.reads_operation bytes op e (ensure-eq-ok (is_store_id op.view_id) bad_view_id a)
              (ground arith) (ensure-eq-ok (all is_store_id op.parents) bad_parent_id c),
          ground arith,
          ground arith,
        )
  ]

  pub Places-new_views :
      (repo at_hand : OpenRepo) (vs : List StoredView)
      → All (IsValidView jj repo) vs
      → Places jj at_hand (new_views repo vs)
  Places-new_views repo at_hand [] h = tt
  Places-new_views repo at_hand (v ∷ vs) h = elim (Bool-cases (contains_key v.id repo.views)) [
    | inl old ↦ rw old (Places-new_views repo at_hand vs (h.1))
    | inr new ↦
        let f = staged_file Dir.views_dir v.id v.bytes in
        rw new (
          decoded_view v.bytes v.meta (h.0).parsed,
          Places-new_views repo (place at_hand f) vs (h.1),
        )
  ]

  has_view-place :
      (repo : OpenRepo) (id : CommitId) (bytes : Bytes) (v : View)
      → jj.load_view bytes ≡ some v
      → has_view jj (place repo (staged_file Dir.views_dir id bytes)) id ≡ ok true
  unfolding has_view place
  has_view-place repo id bytes v e =
      ground (arith, get-insert id id bytes repo.views, text_eq_refl id, e)

  has_view-stored :
      (repo : OpenRepo) (id : CommitId)
      → IsClosed jj repo
      → contains_key id repo.views ≡ true
      → has_view jj repo id ≡ ok true
  unfolding has_view
  has_view-stored repo id c h = elim (Option-cases (get id repo.views)) [
    | inl e ↦ ground (arith, e)
    | inr (bytes, e) ↦ let (v, d) = c.views id bytes e in ground (arith, e, d)
  ]

  -- After the views are placed, those of the batch can be read.
  pub has_view-new_views :
      (repo at_hand : OpenRepo) (vs : List StoredView) (id : CommitId)
      → IsClosed jj repo
      → Extends jj repo at_hand
      → All (IsValidView jj repo) vs
      → has_id id (view_ids_of vs) ≡ true
      → has_view jj (persist at_hand (new_views repo vs)) id ≡ ok true
  unfolding persist
  has_view-new_views repo at_hand [] id c e h m = cc
  has_view-new_views repo at_hand (v ∷ vs) id c e h m =
      let f = staged_file Dir.views_dir v.id v.bytes in
      let next = place at_hand f in
      let decodes = decoded_view v.bytes v.meta (h.0).parsed in
      let later = Extends-trans jj repo at_hand next e (Extends-place jj at_hand f decodes) in
      let rest = λ (r : OpenRepo).
        Extends-persist jj r (new_views repo vs) (Places-new_views repo r vs (h.1)) in
      elim (Bool-cases (contains_key v.id repo.views)) [
        | inl old ↦ rw old (elim (Bool-cases (text_eq id v.id)) [
          | inl same ↦
              (rest at_hand).views id
                (e.views id (has_view-stored repo id c (rw (text_eq_sound id v.id same) old)))
          | inr other ↦ has_view-new_views repo at_hand vs id c e (h.1) (ground arith)
        ])
        | inr new ↦ rw new (elim (Bool-cases (text_eq id v.id)) [
          | inl same ↦ (rest next).views id (
              rw (text_eq_sound id v.id same)
                (has_view-place at_hand v.id v.bytes decodes.0 decodes.1))
          | inr other ↦ has_view-new_views repo next vs id c later (h.1) (ground arith)
        ])
      ]

  IsEntire-op :
      (at_hand : OpenRepo) (o : StoredOp) (known : CommitId → Bool)
      → ((x : CommitId) → known x ≡ true → is_local at_hand x ≡ true)
      → parse_operation jj.decode_operation o.bytes ≡ ok o.meta
      → all known o.meta.parents ≡ true
      → has_view jj at_hand o.meta.view_id ≡ ok true
      → IsEntire jj at_hand o.bytes
  IsEntire-op at_hand o known k parsed parents view =
      let (op, d, same_parents, same_view) = decoded_operation o.bytes o.meta parsed in
      record {
        op = op;
        decodes = d;
        parents = rw same_parents (all-imp known (is_local at_hand) o.meta.parents k parents);
        view = rw same_view view;
      }

  pub Places-new_ops :
      (repo at_hand : OpenRepo) (known : CommitId → Bool) (os : List StoredOp)
      → Extends jj repo at_hand
      → ((x : CommitId) → known x ≡ true → is_local at_hand x ≡ true)
      → All (IsValidOp jj repo) os
      → ParentsFirst known os
      → All (λ o. has_view jj at_hand o.meta.view_id ≡ ok true) os
      → Places jj at_hand (new_ops repo os)
  Places-new_ops repo at_hand known [] e k valid parents views = tt
  Places-new_ops repo at_hand known (o ∷ os) e k valid parents views =
      let f = staged_file Dir.operations_dir o.id o.bytes in
      let next = place at_hand f in
      let more = λ (x : CommitId). text_eq x o.id || known x in
      let size = (valid.0).size in
      elim (Bool-cases (contains_key o.id repo.operations)) [
        | inl old ↦
            let here = e.operations o.id (has_operation-stored repo o.id size old) in
            rw old (
              Places-new_ops repo at_hand more os e
                (λ x h. ground (arith, k x, here, text_eq_sound x o.id)) (valid.1) (parents.1)
                (views.1))
        | inr new ↦
            let entire = IsEntire-op at_hand o known k (valid.0).parsed (parents.0) (views.0) in
            let grows = Extends-place jj at_hand f entire in
            let here = has_operation-place at_hand o.id o.bytes (size ∙ ap length (sym e.root)) in
            rw new (
              entire,
              Places-new_ops repo next more os (Extends-trans jj repo at_hand next e grows)
                  (λ x h. ground (
                    arith,
                    λ (n : known x ≡ true). Extends-local jj at_hand next x grows (k x n),
                    here,
                    text_eq_sound x o.id,
                  ))
                  (valid.1) (parents.1)
                  (All-map (λ (p : StoredOp) v. grows.views p.meta.view_id v) os (views.1)),
            )
      ]
