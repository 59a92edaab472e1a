-- ===== src/Repo/Transfer/Apply/Staging.antt =====
-- The lemmas on the list of the writes of a batch.
use mathlib.Core.List.{append-nil, append_assoc}
use jj_mesh.Prelude.{
  >>=-eq-ok, ok, contains_key, nat_ord, bool_ord, pair_ord, list_ord, option_ord, reverse_ord,
  if◌then◌else◌, ℕ, zero, suc, ◌≡◌, refl, ap, ◌∙◌, Bool, true, false, List, [], ◌∷◌, ◌++◌, arith,
}
use jj_mesh.Config.Name.{take}
use jj_mesh.Repo.Codec.Messages.{CommitId}
use jj_mesh.Repo.Store.Defs.{Bytes, check_replicated_id, OpenRepo, Jj}
use jj_mesh.Repo.Store.Writes.{
  RawWriteBatch, files, stage_file, write_bytes, write_operation_bytes, write_view_bytes, place,
  persist, Dir, StagedFile, staged_file,
}
use jj_mesh.Repo.Transfer.Batch.{StoredOp, StoredView, OpBatch}
use jj_mesh.Repo.Transfer.Apply.Defs.{write_each, stage_writes}
use jj_mesh.Repo.Transfer.Apply.Closed.{Placeable, Extends-place, IsClosed-place, IsClosed, Extends}

module _ (jj : Jj) where
  -- Every file can be placed when its turn comes.
  abbrev pub Places : OpenRepo → RawWriteBatch → Type 0
  Places repo [] = Unit
  Places repo (f ∷ fs) = Placeable jj repo f × Places (place repo f) fs

  pub Extends-refl : (repo : OpenRepo) → Extends jj repo repo
  Extends-refl repo = record {
    root = refl;
    op_heads = refl;
    operations = λ x h. h;
    views = λ x h. h;
  }

  pub Extends-trans : (a b c : OpenRepo) → Extends jj a b → Extends jj b c → Extends jj a c
  Extends-trans a b c e f = record {
    root = f.root ∙ e.root;
    op_heads = f.op_heads ∙ e.op_heads;
    operations = λ x h. f.operations x (e.operations x h);
    views = λ x h. f.views x (e.views x h);
  }

  pub Extends-persist :
      (repo : OpenRepo) (fs : RawWriteBatch) → Places repo fs → Extends jj repo (persist repo fs)
  unfolding persist
  Extends-persist repo [] p = Extends-refl repo
  Extends-persist repo (f ∷ fs) p =
      Extends-trans repo (place repo f) (persist (place repo f) fs) (Extends-place jj repo f p.0)
        (Extends-persist (place repo f) fs p.1)

  -- A crash between two renames leaves a closed repo.
  pub IsClosed-take :
      (n : ℕ) (repo : OpenRepo) (fs : RawWriteBatch)
      → Places repo fs
      → IsClosed jj repo
      → IsClosed jj (persist repo (take n fs))
  unfolding persist take
  IsClosed-take zero repo fs p c = c
  IsClosed-take (suc n) repo [] p c = c
  IsClosed-take (suc n) repo (f ∷ fs) p c =
      IsClosed-take n (place repo f) fs (p.1) (IsClosed-place jj repo f (p.0) c)

  pub IsClosed-persist :
      (repo : OpenRepo) (fs : RawWriteBatch)
      → Places repo fs
      → IsClosed jj repo
      → IsClosed jj (persist repo fs)
  unfolding persist
  IsClosed-persist repo [] p c = c
  IsClosed-persist repo (f ∷ fs) p c =
      IsClosed-persist (place repo f) fs (p.1) (IsClosed-place jj repo f (p.0) c)

  pub Places-append :
      (repo : OpenRepo) (fs gs : RawWriteBatch)
      → Places repo fs
      → Places (persist repo fs) gs
      → Places repo (fs ++ gs)
  unfolding persist
  Places-append repo [] gs p q = q
  Places-append repo (f ∷ fs) gs p q = (p.0, Places-append (place repo f) fs gs (p.1) q)

-- The files that are staged for the views and for the operations of a batch
abbrev pub new_views : OpenRepo → List StoredView → RawWriteBatch
new_views repo [] = []
new_views repo (v ∷ vs) =
    if contains_key v.id repo.views
    then new_views repo vs
    else staged_file Dir.views_dir v.id v.bytes ∷ new_views repo vs

abbrev pub new_ops : OpenRepo → List StoredOp → RawWriteBatch
new_ops repo [] = []
new_ops repo (o ∷ os) =
    if contains_key o.id repo.operations
    then new_ops repo os
    else staged_file Dir.operations_dir o.id o.bytes ∷ new_ops repo os

written :
    (dir : Dir) (repo : OpenRepo) (w more : RawWriteBatch) (id : CommitId) (bytes : Bytes)
    → write_bytes dir repo w id bytes ≡ ok more
    → more ≡ (if contains_key id (files dir repo) then w else w ++ staged_file dir id bytes ∷ [])
unfolding write_bytes stage_file
written dir repo w more id bytes h =
    let (_, _, made) = >>=-eq-ok (check_replicated_id repo id) _ h in ground arith

staged_rest :
    (old : Bool) (w more out rest : RawWriteBatch) (f : StagedFile)
    → more ≡ (if old then w else w ++ f ∷ [])
    → out ≡ more ++ rest
    → out ≡ w ++ (if old then rest else f ∷ rest)
staged_rest true w more out rest f h k = ground arith
staged_rest false w more out rest f h k = rw (k, h) (append_assoc w (f ∷ []) rest)

pub write_views_lem :
    (repo : OpenRepo) (vs : List StoredView) (w out : RawWriteBatch)
    → write_each (λ w v. write_view_bytes repo w v.id v.bytes) w vs ≡ ok out
    → out ≡ w ++ new_views repo vs
write_views_lem repo [] w out h = rw (append-nil w) (ground arith)
write_views_lem repo (v ∷ vs) w out h =
    let (more, e, rest) = >>=-eq-ok (write_view_bytes repo w v.id v.bytes) _ h in
    staged_rest (contains_key v.id repo.views) w more out (new_views repo vs)
      (staged_file Dir.views_dir v.id v.bytes) (written Dir.views_dir repo w more v.id v.bytes e)
      (write_views_lem repo vs more out rest)

pub write_ops_lem :
    (repo : OpenRepo) (os : List StoredOp) (w out : RawWriteBatch)
    → write_each (λ w o. write_operation_bytes repo w o.id o.bytes) w os ≡ ok out
    → out ≡ w ++ new_ops repo os
write_ops_lem repo [] w out h = rw (append-nil w) (ground arith)
write_ops_lem repo (o ∷ os) w out h =
    let (more, e, rest) = >>=-eq-ok (write_operation_bytes repo w o.id o.bytes) _ h in
    staged_rest (contains_key o.id repo.operations) w more out (new_ops repo os)
      (staged_file Dir.operations_dir o.id o.bytes)
      (written Dir.operations_dir repo w more o.id o.bytes e) (write_ops_lem repo os more out rest)

pub stage_writes_lem :
    (jj : Jj) (repo : OpenRepo) (batch : OpBatch) (out : RawWriteBatch)
    → stage_writes jj repo batch ≡ ok out
    → out ≡ new_views repo batch.views ++ new_ops repo batch.ops
unfolding stage_writes
stage_writes_lem jj repo batch out h =
    let (views, e, rest) =
      >>=-eq-ok (write_each (λ w v. write_view_bytes repo w v.id v.bytes) [] batch.views) _ h in
    write_ops_lem repo batch.ops views out rest
    ∙ ap (λ l. l ++ new_ops repo batch.ops) (write_views_lem repo batch.views [] views e)
