-- ===== src/Repo/Transfer/Apply/Closed.antt =====
-- Closed repos, and the lemmas on the rename of one file.
use jj_mesh.Prelude.{
  ok, get, insert, get-insert, nat_ord, bool_ord, pair_ord, list_ord, option_ord, reverse_ord,
  Bool-cases, is_empty, all, ◌≡◌, refl, sym, inl, inr, true, false, some, arith,
}
use jj_mesh.Config.Machine.{text_eq}
use jj_mesh.Repo.Codec.Messages.{CommitId, Operation, View}
use jj_mesh.Repo.Codec.Ids.{has_id, is_store_id}
use jj_mesh.Repo.Codec.Soundness.{view_readable}
use jj_mesh.Repo.Store.Defs.{Bytes, has_operation, has_view, OpenRepo, Jj}
use jj_mesh.Repo.Store.Writes.{place, Dir, StagedFile, staged_file}
use jj_mesh.Repo.Transfer.Receive.Accepted.{all-imp, is_local}

-- jj's readers read what decodes, unless an id of an operation has another length than jj's, the operation has
-- no parents, or the view has one of the shapes that they refuse.
pub record ReadsStored (jj : Jj) : Type 0 where
  pub reads_operation :
      (bytes : Bytes) (op : Operation)
      → jj.decode_operation bytes ≡ some op
      → is_store_id op.view_id ≡ true
      → is_empty op.parents ≡ false
      → all is_store_id op.parents ≡ true
      → jj.load_operation bytes ≡ some op
  pub reads_view :
      (bytes : Bytes) (v : View)
      → jj.decode_view bytes ≡ some v
      → view_readable jj.is_known v ≡ true
      → jj.load_view bytes ≡ some v

module _ (jj : Jj) where
  -- An operation whose parents and view the repo has
  pub record IsEntire (repo : OpenRepo) (bytes : Bytes) : Type 0 where
    pub op : Operation
    pub decodes : jj.load_operation bytes ≡ some op
    pub parents : all (is_local repo) op.parents ≡ true
    pub view : has_view jj repo op.view_id ≡ ok true

  pub record IsClosed (repo : OpenRepo) : Type 0 where
    pub heads : (h : CommitId) → has_id h repo.op_heads ≡ true → has_operation repo h ≡ true
    pub operations :
        (id : CommitId) (bytes : Bytes) → get id repo.operations ≡ some bytes → IsEntire repo bytes
    pub views :
        (id : CommitId) (bytes : Bytes)
        → get id repo.views ≡ some bytes
        → (v : View) × (jj.load_view bytes ≡ some v)

  -- `later` has all that `repo` has.
  pub record Extends (repo later : OpenRepo) : Type 0 where
    pub root : later.root ≡ repo.root
    pub op_heads : later.op_heads ≡ repo.op_heads
    pub operations : (id : CommitId) → has_operation repo id ≡ true → has_operation later id ≡ true
    pub views : (id : CommitId) → has_view jj repo id ≡ ok true → has_view jj later id ≡ ok true

  abbrev pub Placeable : OpenRepo → StagedFile → Type 0
  Placeable repo (staged_file Dir.operations_dir id bytes) = IsEntire repo bytes
  Placeable repo (staged_file Dir.views_dir id bytes) = (v : View) × (jj.load_view bytes ≡ some v)

  Extends-operation :
      (repo : OpenRepo) (id : CommitId) (bytes : Bytes)
      → Extends repo (record repo { operations = insert id bytes repo.operations })
  unfolding has_operation has_view
  Extends-operation repo id bytes = record {
    root = refl;
    op_heads = refl;
    operations = λ x h. ground (arith, get-insert x id bytes repo.operations);
    views = λ x h. h;
  }

  Extends-view :
      (repo : OpenRepo) (id : CommitId) (bytes : Bytes) (v : View)
      → jj.load_view bytes ≡ some v
      → Extends repo (record repo { views = insert id bytes repo.views })
  unfolding has_operation has_view
  Extends-view repo id bytes v e = record {
    root = refl;
    op_heads = refl;
    operations = λ x h. h;
    views = λ x h. elim (Bool-cases (text_eq id x)) [
      | inl same ↦ ground (arith, get-insert x id bytes repo.views, e)
      | inr other ↦ ground (arith, get-insert x id bytes repo.views)
    ];
  }

  pub Extends-local :
      (repo later : OpenRepo) (x : CommitId)
      → Extends repo later
      → is_local repo x ≡ true
      → is_local later x ≡ true
  Extends-local repo later x e h = ground (arith, e.operations x, rw (sym e.root) at h)

  pub IsEntire-Extends :
      (repo later : OpenRepo) (bytes : Bytes)
      → Extends repo later
      → IsEntire repo bytes
      → IsEntire later bytes
  IsEntire-Extends repo later bytes e i = record {
    op = i.op;
    decodes = i.decodes;
    parents =
        all-imp (is_local repo) (is_local later) i.op.parents (λ x. Extends-local repo later x e)
          i.parents;
    view = e.views i.op.view_id i.view;
  }

  IsEntire-in :
      (repo : OpenRepo) (x id : CommitId) (bytes b : Bytes)
      → IsEntire repo bytes
      → IsClosed repo
      → get x (insert id bytes repo.operations) ≡ some b
      → IsEntire repo b
  IsEntire-in repo x id bytes b p c h = elim (Bool-cases (text_eq id x)) [
    | inl same ↦
        let e : bytes ≡ b = ground (arith, get-insert x id bytes repo.operations) in rw e at p
    | inr other ↦ c.operations x b (ground (arith, get-insert x id bytes repo.operations))
  ]

  decodes_in :
      (repo : OpenRepo) (x id : CommitId) (bytes b : Bytes)
      → (v : View) × (jj.load_view bytes ≡ some v)
      → IsClosed repo
      → get x (insert id bytes repo.views) ≡ some b
      → (v : View) × (jj.load_view b ≡ some v)
  decodes_in repo x id bytes b p c h = elim (Bool-cases (text_eq id x)) [
    | inl same ↦ let e : bytes ≡ b = ground (arith, get-insert x id bytes repo.views) in rw e at p
    | inr other ↦ c.views x b (ground (arith, get-insert x id bytes repo.views))
  ]

  pub Extends-place :
      (repo : OpenRepo) (f : StagedFile) → Placeable repo f → Extends repo (place repo f)
  unfolding place
  Extends-place repo (staged_file Dir.operations_dir id bytes) p = Extends-operation repo id bytes
  Extends-place repo (staged_file Dir.views_dir id bytes) (v, e) = Extends-view repo id bytes v e

  pub IsClosed-place :
      (repo : OpenRepo) (f : StagedFile)
      → Placeable repo f
      → IsClosed repo
      → IsClosed (place repo f)
  unfolding place
  IsClosed-place repo (staged_file Dir.operations_dir id bytes) p c =
      let later : OpenRepo = record repo { operations = insert id bytes repo.operations } in
      let ext = Extends-operation repo id bytes in
      record {
        heads = λ h m. ext.operations h (c.heads h m);
        operations =
            λ x b h. IsEntire-Extends repo later b ext (IsEntire-in repo x id bytes b p c h);
        views = c.views;
      }
  IsClosed-place repo (staged_file Dir.views_dir id bytes) p c =
      let later : OpenRepo = record repo { views = insert id bytes repo.views } in
      let ext = Extends-view repo id bytes p.0 p.1 in
      record {
        heads = λ h m. ext.operations h (c.heads h m);
        operations = λ x b h. IsEntire-Extends repo later b ext (c.operations x b h);
        views = λ x b h. decodes_in repo x id bytes b p c h;
      }
