-- ===== src/Repo/Transfer/Receive/Accepted.antt =====
-- The predicates on a batch while it is received, and the lemmas on its lists.
use jj_mesh.Prelude.{
  ok, nat_ord, bool_ord, pair_ord, list_ord, option_ord, reverse_ord, length, all, All, ◌≡◌, refl,
  ap, ◌⊎◌, Bool, true, false, ◌||◌, List, [], ◌∷◌, ◌++◌, arith,
}
use jj_mesh.Config.Machine.{text_eq}
use jj_mesh.Repo.Codec.Messages.{CommitId}
use jj_mesh.Repo.Codec.Ids.{has_id, parse_operation}
use jj_mesh.Repo.Codec.Views.{parse_view}
use jj_mesh.Repo.Sets.{Distinct}
use jj_mesh.Repo.Store.Defs.{is_root, id_len, has_operation, has_view, OpenRepo, Jj}
use jj_mesh.Repo.Transfer.Batch.{StoredOp, StoredView}
use jj_mesh.Repo.Transfer.Receive.Frames.{Receiving}
use jj_mesh.Repo.Transfer.Reachable.Defs.{ids}

-- What is known after some operations
abbrev pub after_ops : (CommitId → Bool) → List StoredOp → CommitId → Bool
after_ops known [] = known
after_ops known (o ∷ os) = after_ops (λ x. text_eq x o.id || known x) os

pub after_ops_lem :
    (known : CommitId → Bool) (os : List StoredOp) (x : CommitId)
    → after_ops known os x ≡ (has_id x (ids os) || known x)
after_ops_lem known [] x = refl
after_ops_lem known (o ∷ os) x = ground (arith, after_ops_lem (λ y. text_eq y o.id || known y) os x)

-- Every parent of an operation is known when the operation comes.
abbrev pub ParentsFirst : (CommitId → Bool) → List StoredOp → Type 0
ParentsFirst known [] = Unit
ParentsFirst known (o ∷ os) =
    (all known (o.meta.parents) ≡ true) × ParentsFirst (λ x. text_eq x o.id || known x) os

pub ParentsFirst-concat :
    (known : CommitId → Bool) (os : List StoredOp) (o : StoredOp)
    → ParentsFirst known os
    → all (after_ops known os) (o.meta.parents) ≡ true
    → ParentsFirst known (os ++ o ∷ [])
ParentsFirst-concat known [] o p h = (h, tt)
ParentsFirst-concat known (o' ∷ os) o p h =
    (p.0, ParentsFirst-concat (λ x. text_eq x o'.id || known x) os o (p.1) h)

pub all-imp :
    (p q : CommitId → Bool) (xs : List CommitId)
    → ((x : CommitId) → p x ≡ true → q x ≡ true)
    → all p xs ≡ true
    → all q xs ≡ true
all-imp p q [] f h = refl
all-imp p q (x ∷ xs) f h = ground (arith, f x, all-imp p q xs f)

pub ids-append : (os ps : List StoredOp) → ids (os ++ ps) ≡ ids os ++ ids ps
ids-append [] ps = refl
ids-append (o ∷ os) ps = ap (λ l. o.id ∷ l) (ids-append os ps)

pub All-concat {ℓ κ} :
    {A : Type ℓ} (P : A → Type κ) (xs : List A) (x : A) → All P xs → P x → All P (xs ++ x ∷ [])
All-concat P [] x h p = (p, tt)
All-concat P (y ∷ ys) x h p = (h.0, All-concat P ys x (h.1) p)

abbrev pub view_ids_of : List StoredView → List CommitId
view_ids_of [] = []
view_ids_of (v ∷ vs) = v.id ∷ view_ids_of vs

abbrev pub is_local : OpenRepo → CommitId → Bool
is_local repo x = is_root repo x || has_operation repo x

module _ (jj : Jj) (repo : OpenRepo) where
  -- An operation that the store may take
  pub record IsValidOp (o : StoredOp) : Type 0 where
    pub size : length o.id ≡ id_len repo
    pub not_root : is_root repo o.id ≡ false
    pub parsed : parse_operation jj.decode_operation o.bytes ≡ ok o.meta

  pub record IsValidView (v : StoredView) : Type 0 where
    pub size : length v.id ≡ id_len repo
    pub parsed : parse_view jj.is_known jj.decode_view v.bytes ≡ ok v.meta

  abbrev pub HasView : List CommitId → StoredOp → Type 0
  HasView view_ids o =
      (has_id o.meta.view_id view_ids ≡ true) ⊎ (has_view jj repo o.meta.view_id ≡ ok true)

  pub record IsBatch (ops : List StoredOp) (views : List StoredView) : Type 0 where
    pub distinct : Distinct (ids ops)
    pub valid : All IsValidOp ops
    pub parents_first : ParentsFirst (is_local repo) ops
    pub valid_views : All IsValidView views
    pub have_views : All (HasView (view_ids_of views)) ops

  pub record IsReceiving (r : Receiving) : Type 0 where
    pub op_ids : (x : CommitId) → has_id x r.op_ids ≡ has_id x (ids r.ops)
    pub view_ids : (x : CommitId) → has_id x r.view_ids ≡ has_id x (view_ids_of r.views)
    pub batch : IsBatch r.ops r.views
