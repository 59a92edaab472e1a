-- ===== src/Repo/Transfer/Serve/Order.antt =====
-- What a server has to send, as predicates on a list of operations.
use jj_mesh.Prelude.{
  ok, BTreeMap, get, get-insert, nat_ord, bool_ord, pair_ord, list_ord, option_ord, reverse_ord,
  Bool-cases, length, all, ◌≤◌, ◌≡◌, refl, ◌∙◌, ◌⊎◌, inl, inr, true, false, some, List, [], ◌∷◌,
  foldl, arith,
}
use jj_mesh.Config.Machine.{text_eq, text_eq_sound}
use jj_mesh.Repo.Codec.Messages.{CommitId, Operation, OpMeta, ViewMeta}
use jj_mesh.Repo.Codec.Ids.{has_id, parse_operation}
use jj_mesh.Repo.Codec.Views.{parse_view}
use jj_mesh.Repo.Sets.{Distinct, text_eq_refl, text_eq_sym, has_id_self, has_id-keep}
use jj_mesh.Repo.Store.Defs.{Bytes, is_root, id_len, OpenRepo, Jj}
use jj_mesh.Repo.Store.Walk.{start, step}
use jj_mesh.Net.Fetch.{max_op_frame_size, OpFrame}
use jj_mesh.Repo.Transfer.Batch.{ops_by_id, StoredOp, Codecs}
use jj_mesh.Repo.Transfer.Receive.Frames.{has_parent}
use jj_mesh.Repo.Transfer.Reachable.Defs.{ids, in_batch, parents_of_meta}
use jj_mesh.Repo.Transfer.Reachable.Laws.{add_op, FromWants}

pub record HasViewFile (jj : Jj) (codecs : Codecs) (server fetcher : OpenRepo) (id : CommitId)
    : Type 0 where
  pub bytes : Bytes
  pub meta : ViewMeta
  pub stored : get id server.views ≡ some bytes
  pub parsed : parse_view jj.is_known jj.decode_view bytes ≡ ok meta
  pub id_size : length id ≡ id_len fetcher
  pub size : length bytes ≤ max_op_frame_size
  pub frame_size :
      length (codecs.encode_op_frame (OpFrame.view_frame id (codecs.compress bytes)))
      ≤ max_op_frame_size

-- An operation that the server stores, with what jj reads of it, and that the fetcher can take
pub record IsServable (jj : Jj) (codecs : Codecs) (server fetcher : OpenRepo) (id : CommitId)
    (op : Operation) (o : StoredOp) : Type 0 where
  pub same_id : o.id ≡ id
  pub stored : get id server.operations ≡ some o.bytes
  pub parsed : parse_operation jj.decode_operation o.bytes ≡ ok o.meta
  pub same_parents : o.meta.parents ≡ op.parents
  pub same_view : o.meta.view_id ≡ op.view_id
  pub id_size : length id ≡ id_len fetcher
  pub not_root : is_root fetcher id ≡ false
  pub size : length o.bytes ≤ max_op_frame_size
  pub frame_size :
      length (codecs.encode_op_frame (OpFrame.op_frame id (codecs.compress o.bytes)))
      ≤ max_op_frame_size
  pub view : HasViewFile jj codecs server fetcher op.view_id

module _ (jj : Jj) (codecs : Codecs) (server fetcher : OpenRepo) where
  -- Operations to send after those of `seen`
  abbrev pub IsDelta : List CommitId → List (CommitId × Operation) → List StoredOp → Type 0
  IsDelta seen [] [] = Unit
  IsDelta seen [] (o ∷ os) = ⊥
  IsDelta seen (e ∷ ops) [] = ⊥
  IsDelta seen (e ∷ ops) (o ∷ os) =
      IsServable jj codecs server fetcher (e.0) (e.1) o
      × (has_id (e.0) seen ≡ false)
      × (all (has_parent fetcher seen) ((e.1).parents) ≡ true)
      × IsDelta (e.0 ∷ seen) ops os

-- Each operation is wanted, or a later one has it as a parent: the order of a walk from the wants, reversed.
abbrev pub IsParentIn : CommitId → List StoredOp → Type 0
IsParentIn id [] = ⊥
IsParentIn id (o ∷ os) = (has_id id (o.meta.parents) ≡ true) ⊎ IsParentIn id os

abbrev pub IsLinked : List CommitId → List StoredOp → Type 0
IsLinked wants [] = Unit
IsLinked wants (o ∷ os) = ((has_id o.id wants ≡ true) ⊎ IsParentIn o.id os) × IsLinked wants os

-- An operation of the batch is found under its id.
get-add_ops :
    (x : CommitId) (m : BTreeMap CommitId OpMeta) (os : List StoredOp)
    → has_id x (ids os) ≡ false
    → get x (foldl add_op m os) ≡ get x m
get-add_ops x m [] h = refl
get-add_ops x m (o ∷ os) h =
    get-add_ops x (add_op m o) os (ground arith)
    ∙ ground (arith, get-insert x o.id o.meta m, text_eq_sym x o.id)

-- The operations `os` end the batch, whose map `m` is so far without them.
module _ (wants : List CommitId) (all_ops : List StoredOp) where
  abbrev EndsWith : BTreeMap CommitId OpMeta → List StoredOp → Type 0
  EndsWith m os = ops_by_id all_ops ≡ foldl add_op m os

  get-first :
      (m : BTreeMap CommitId OpMeta) (o : StoredOp) (os : List StoredOp)
      → EndsWith m (o ∷ os)
      → has_id o.id (ids os) ≡ false
      → get o.id (ops_by_id all_ops) ≡ some o.meta
  get-first m o os e h = rw e (
      get-add_ops o.id (add_op m o) os h
      ∙ ground (arith, get-insert o.id o.id o.meta m, text_eq_refl o.id))

  child_of :
      (m : BTreeMap CommitId OpMeta) (os : List StoredOp) (x : CommitId)
      → EndsWith m os
      → Distinct (ids os)
      → IsParentIn x os
      → (c : CommitId) × (has_id c (ids os) ≡ true)
        × (has_id x (parents_of_meta (get c (ops_by_id all_ops))) ≡ true)
  child_of m [] x e d p = absurd p
  child_of m (o ∷ os) x e d (inl here) =
      (o.id, has_id_self o.id (ids os), rw (get-first m o os e (d.0)) here)
  child_of m (o ∷ os) x e d (inr later) =
      let (c, there, parent) = child_of (add_op m o) os x e (d.1) later in
      (c, ground (arith, there), parent)

  IsLinked-FromWants :
      (m : BTreeMap CommitId OpMeta) (os : List StoredOp)
      → EndsWith m os
      → Distinct (ids os)
      → IsLinked wants os
      → (x : CommitId) → has_id x (ids os) ≡ true
      → FromWants all_ops wants x
  IsLinked-FromWants m [] e d l x h = cc
  IsLinked-FromWants m (o ∷ os) e d l x h =
      let later = IsLinked-FromWants (add_op m o) os e (d.1) (l.1) in
      let by_id = ops_by_id all_ops in
      let found = get-first m o os e (d.0) in
      let inside : in_batch by_id o.id ≡ true = rw found refl in
      elim (Bool-cases (text_eq x o.id)) [
        | inr other ↦ later x (ground arith)
        | inl same ↦ rw (text_eq_sound x o.id same) (elim (l.0) [
          | inl wanted ↦ start (ground (arith, has_id-keep (in_batch by_id) o.id wants))
          | inr parent ↦
              let (c, there, is_parent) = child_of (add_op m o) os o.id e (d.1) parent in
              step (later c there)
                (ground (arith, has_id-keep (in_batch by_id) o.id (parents_of_meta (get c by_id))))
        ])
      ]

pub linked_lem :
    (wants : List CommitId) (os : List StoredOp)
    → Distinct (ids os)
    → IsLinked wants os
    → (x : CommitId) → has_id x (ids os) ≡ true
    → FromWants os wants x
unfolding ops_by_id
linked_lem wants os d l x h = IsLinked-FromWants wants os [] os refl d l x h
