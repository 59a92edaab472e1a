-- ===== src/Repo/Transfer/Apply/Stored.antt =====
-- The lemmas on what is stored after the writes of a batch.
use mathlib.Core.List.{foldl-append}
use jj_mesh.Prelude.{
  ok, get, contains_key, get-insert, nat_ord, bool_ord, pair_ord, list_ord, option_ord, reverse_ord,
  Bool-cases, length, All, ◌≡◌, refl, sym, ap, ◌∙◌, inl, inr, true, some, List, [], ◌∷◌, ◌++◌,
  arith,
}
use jj_mesh.Config.Machine.{text_eq, text_eq_sound}
use jj_mesh.Repo.Codec.Messages.{CommitId}
use jj_mesh.Repo.Codec.Ids.{has_id}
use jj_mesh.Repo.Store.Defs.{Bytes, has_operation, OpenRepo, Jj}
use jj_mesh.Repo.Store.Writes.{RawWriteBatch, place, persist, Dir, staged_file}
use jj_mesh.Repo.Transfer.Batch.{StoredOp, StoredView, OpBatch, Codecs}
use jj_mesh.Repo.Transfer.Reachable.Defs.{ids}
use jj_mesh.Repo.Transfer.Receive.Accepted.{IsValidOp}
use jj_mesh.Repo.Transfer.Receive.Safe.{IsAccepted}
use jj_mesh.Repo.Transfer.Apply.Defs.{stage_writes}
use jj_mesh.Repo.Transfer.Apply.Closed.{Extends-place, Extends}
use jj_mesh.Repo.Transfer.Apply.Staging.{
  Places, Extends-trans, Extends-persist, new_views, new_ops, stage_writes_lem,
}
use jj_mesh.Repo.Transfer.Apply.Stage.{has_operation-place, has_operation-stored}

module _ (jj : Jj) where
  Places-rest :
      (repo : OpenRepo) (fs gs : RawWriteBatch)
      → Places jj repo (fs ++ gs)
      → Places jj (persist repo fs) gs
  unfolding persist
  Places-rest repo [] gs p = p
  Places-rest repo (f ∷ fs) gs p = Places-rest (place repo f) fs gs (p.1)

  Places-start :
      (repo : OpenRepo) (fs gs : RawWriteBatch) → Places jj repo (fs ++ gs) → Places jj repo fs
  Places-start repo [] gs p = tt
  Places-start repo (f ∷ fs) gs p = (p.0, Places-start (place repo f) fs gs (p.1))

  has_operation-new_ops :
      (repo at_hand : OpenRepo) (os : List StoredOp) (x : CommitId)
      → Extends jj repo at_hand
      → All (IsValidOp jj repo) os
      → Places jj at_hand (new_ops repo os)
      → has_id x (ids os) ≡ true
      → has_operation (persist at_hand (new_ops repo os)) x ≡ true
  unfolding persist
  has_operation-new_ops repo at_hand [] x e valid p m = cc
  has_operation-new_ops repo at_hand (o ∷ os) x e valid p m =
      let f = staged_file Dir.operations_dir o.id o.bytes in
      let next = place at_hand f in
      let size = (valid.0).size in
      elim (Bool-cases (contains_key o.id repo.operations)) [
        | inl old ↦
            let q = rw old at p in
            rw old (elim (Bool-cases (text_eq x o.id)) [
              | inl same ↦ (Extends-persist jj at_hand (new_ops repo os) q).operations x (
                  rw (text_eq_sound x o.id same)
                    (e.operations o.id (has_operation-stored repo o.id size old)))
              | inr other ↦ has_operation-new_ops repo at_hand os x e (valid.1) q (ground arith)
            ])
        | inr new ↦
            let q = rw new at p in
            let grows = Extends-place jj at_hand f (q.0) in
            rw new (elim (Bool-cases (text_eq x o.id)) [
              | inl same ↦ (Extends-persist jj next (new_ops repo os) (q.1)).operations x (
                  rw (text_eq_sound x o.id same)
                    (has_operation-place at_hand o.id o.bytes (size ∙ ap length (sym e.root))))
              | inr other ↦
                  has_operation-new_ops repo next os x (Extends-trans jj repo at_hand next e grows)
                    (valid.1) (q.1) (ground arith)
            ])
      ]

  pub has_operation-batch :
      (codecs : Codecs) (repo : OpenRepo) (wants : List CommitId) (batch : OpBatch)
      (writes : RawWriteBatch) (x : CommitId)
      → IsAccepted jj codecs repo wants batch
      → stage_writes jj repo batch ≡ ok writes
      → Places jj repo writes
      → has_id x (ids batch.ops) ≡ true
      → has_operation (persist repo writes) x ≡ true
  unfolding persist
  has_operation-batch codecs repo wants batch writes x a h p m =
      let views = new_views repo batch.views in
      let ops = new_ops repo batch.ops in
      let listed = stage_writes_lem jj repo batch writes h in
      let places = rw listed at p in
      let start = Extends-persist jj repo views (Places-start repo views ops places) in
      rw (listed, foldl-append place repo views ops)
        (has_operation-new_ops repo (persist repo views) batch.ops x start (a.is_batch).valid
          (Places-rest repo views ops places) m)

-- A write of a batch leaves the bytes of what is stored.
bytes_after_views :
    (repo at_hand : OpenRepo) (vs : List StoredView)
    → (persist at_hand (new_views repo vs)).operations ≡ at_hand.operations
unfolding persist place
bytes_after_views repo at_hand [] = refl
bytes_after_views repo at_hand (v ∷ vs) = elim (Bool-cases (contains_key v.id repo.views)) [
  | inl old ↦ rw old (bytes_after_views repo at_hand vs)
  | inr new ↦
      rw new (bytes_after_views repo (place at_hand (staged_file Dir.views_dir v.id v.bytes)) vs)
]

bytes_after_ops :
    (repo at_hand : OpenRepo) (os : List StoredOp) (x : CommitId) (b : Bytes)
    → get x repo.operations ≡ some b
    → get x at_hand.operations ≡ some b
    → get x (persist at_hand (new_ops repo os)).operations ≡ some b
unfolding persist place
bytes_after_ops repo at_hand [] x b g h = h
bytes_after_ops repo at_hand (o ∷ os) x b g h =
    elim (Bool-cases (contains_key o.id repo.operations)) [
      | inl old ↦ rw old (bytes_after_ops repo at_hand os x b g h)
      | inr new ↦
          let next = place at_hand (staged_file Dir.operations_dir o.id o.bytes) in
          rw new (
            bytes_after_ops repo next os x b g (
              ground
                (arith, get-insert x o.id o.bytes at_hand.operations, text_eq_sound o.id x, h, g)))
    ]

pub bytes_kept :
    (jj : Jj) (repo : OpenRepo) (batch : OpBatch) (writes : RawWriteBatch) (x : CommitId)
    (b : Bytes)
    → stage_writes jj repo batch ≡ ok writes
    → get x repo.operations ≡ some b
    → get x (persist repo writes).operations ≡ some b
unfolding persist
bytes_kept jj repo batch writes x b h g =
    let views = new_views repo batch.views in
    rw
      (
        stage_writes_lem jj repo batch writes h,
        foldl-append place repo views (new_ops repo batch.ops),
      )
      (bytes_after_ops repo (persist repo views) batch.ops x b g
        (rw (bytes_after_views repo repo batch.views) g))
