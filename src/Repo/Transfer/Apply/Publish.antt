-- ===== src/Repo/Transfer/Apply/Publish.antt =====
-- The lemmas on `stage` and on the publication of heads.
use mathlib.Core.Logic.{⊎_elim}
use jj_mesh.Prelude.{
  ensure, >>=-eq-ok, ensure-eq-ok, ok, nat_ord, bool_ord, pair_ord, list_ord, option_ord,
  reverse_ord, Bool-cases, All, All-map, ℕ, ◌≡◌, refl, ap, ◌∙◌, ◌⊎◌, inl, inr, true, false, not,
  ◌&&◌, ◌||◌, List, [], ◌∷◌, ◌++◌, arith,
}
use jj_mesh.Config.Name.{take}
use jj_mesh.Config.Machine.{text_eq, text_eq_sound}
use jj_mesh.Repo.Codec.Messages.{CommitId}
use jj_mesh.Repo.Codec.Ids.{has_id}
use jj_mesh.Repo.Store.Defs.{
  Bytes, has_operation, has_view, update_op_heads, head_not_stored, OpenRepo, Jj, KeepsHeads,
}
use jj_mesh.Repo.Store.Writes.{RawWriteBatch, persist}
use jj_mesh.Repo.Transfer.Batch.{StoredOp, StoredView, OpBatch, Codecs}
use jj_mesh.Repo.Transfer.Receive.Loop.{receive_ops}
use jj_mesh.Repo.Transfer.Receive.Accepted.{view_ids_of, is_local, HasView, IsValidView}
use jj_mesh.Repo.Transfer.Receive.Safe.{receive_ops_safe, IsAccepted}
use jj_mesh.Repo.Transfer.Apply.Defs.{Published, stage_writes, publish_heads}
use jj_mesh.Repo.Transfer.Apply.Closed.{Extends-local, IsEntire, IsClosed, Extends, ReadsStored}
use jj_mesh.Repo.Transfer.Apply.Staging.{
  Places, Extends-refl, Extends-persist, IsClosed-take, Places-append, new_views, new_ops,
  stage_writes_lem,
}
use jj_mesh.Repo.Transfer.Apply.Stage.{Places-new_views, has_view-new_views, Places-new_ops}

module _ (jj : Jj) (reads : ReadsStored jj) (codecs : Codecs) (repo : OpenRepo)
    (wants : List CommitId) where
  has_view_of :
      (vs : List StoredView) (o : StoredOp)
      → IsClosed jj repo
      → All (IsValidView jj repo) vs
      → Extends jj repo (persist repo (new_views repo vs))
      → HasView jj repo (view_ids_of vs) o
      → has_view jj (persist repo (new_views repo vs)) o.meta.view_id ≡ ok true
  has_view_of vs o c valid grows (inl m) =
      has_view-new_views jj reads repo repo vs o.meta.view_id c (Extends-refl jj repo) valid m
  has_view_of vs o c valid grows (inr m) = grows.views o.meta.view_id m

  Places-batch :
      (batch : OpBatch)
      → IsClosed jj repo
      → IsAccepted jj codecs repo wants batch
      → Places jj repo (new_views repo batch.views ++ new_ops repo batch.ops)
  Places-batch batch c a =
      let b = a.is_batch in
      let vs = new_views repo batch.views in
      let placed = Places-new_views jj reads repo repo batch.views b.valid_views in
      let grows = Extends-persist jj repo vs placed in
      Places-append jj repo vs (new_ops repo batch.ops) placed (
        Places-new_ops jj reads repo (persist repo vs) (is_local repo) batch.ops grows
          (λ x h. Extends-local jj repo (persist repo vs) x grows h) b.valid b.parents_first
          (All-map (λ o h. has_view_of batch.views o c b.valid_views grows h) batch.ops
            b.have_views))

  pub Places-writes :
      (batch : OpBatch) (writes : RawWriteBatch)
      → IsClosed jj repo
      → IsAccepted jj codecs repo wants batch
      → stage_writes jj repo batch ≡ ok writes
      → Places jj repo writes
  Places-writes batch writes c a h =
      rw (stage_writes_lem jj repo batch writes h) (Places-batch batch c a)

-- When a batch that was received is staged and the machine stops after any number of the renames, every
-- operation that is then stored can be read by jj, and has its parents and its view, if this was so before.
pub stage_crash_safe :
    (jj : Jj) (codecs : Codecs) (repo : OpenRepo) (wants : List CommitId) (stream rest : Bytes)
    (batch : OpBatch) (writes : RawWriteBatch) (n : ℕ)
    → ReadsStored jj
    → IsClosed jj repo
    → receive_ops jj codecs repo wants stream ≡ ok (batch, rest)
    → stage_writes jj repo batch ≡ ok writes
    → IsClosed jj (persist repo (take n writes))
stage_crash_safe jj codecs repo wants stream rest batch writes n reads c h k =
    IsClosed-take jj n repo writes
      (Places-writes jj reads codecs repo wants batch writes c
        (receive_ops_safe jj codecs repo wants stream rest batch h) k)
      c

pub has_operation-heads :
    (repo : OpenRepo) (heads : List CommitId) (x : CommitId)
    → has_operation (record repo { op_heads = heads }) x ≡ has_operation repo x
unfolding has_operation
has_operation-heads repo heads x = refl

IsEntire-heads :
    (jj : Jj) (repo : OpenRepo) (heads : List CommitId) (bytes : Bytes)
    → IsEntire jj repo bytes
    → IsEntire jj (record repo { op_heads = heads }) bytes
unfolding has_operation has_view
IsEntire-heads jj repo heads bytes i = record {
  op = i.op;
  decodes = i.decodes;
  parents = i.parents;
  view = i.view;
}

-- Some publication supersedes the head.
abbrev pub SupersededIn : CommitId → List Published → Type 0
SupersededIn h [] = ⊥
SupersededIn h (p ∷ ps) = (has_id h (p.1) ≡ true) ⊎ SupersededIn h ps

abbrev pub wants_of : List Published → List CommitId
wants_of [] = []
wants_of (p ∷ ps) = p.0 ∷ wants_of ps

-- No want supersedes itself.
abbrev pub Proper : List Published → Type 0
Proper = All (λ p. has_id (p.0) (p.1) ≡ false)

module _ (jj : Jj) where
  -- What happens to each head when some publications are made
  pub record HeadsMoved (repo final : OpenRepo) (ps : List Published) : Type 0 where
    pub closed : IsClosed jj final
    pub only_heads : final ≡ record repo { op_heads = final.op_heads }
    pub kept :
        (h : CommitId)
        → has_id h repo.op_heads ≡ true
        → (has_id h final.op_heads ≡ true) ⊎ SupersededIn h ps
    pub published :
        (h : CommitId)
        → has_id h (wants_of ps) ≡ true
        → (has_id h final.op_heads ≡ true) ⊎ SupersededIn h ps
    pub origin :
        (h : CommitId)
        → has_id h final.op_heads ≡ true
        → (has_id h repo.op_heads || has_id h (wants_of ps)) ≡ true

module _ (jj : Jj) (k : KeepsHeads jj) where
  update_lem :
      (repo next : OpenRepo) (old : List CommitId) (new : CommitId)
      → IsClosed jj repo
      → has_id new old ≡ false
      → update_op_heads jj repo old new ≡ ok next
      → IsClosed jj next
        × (next ≡ record repo { op_heads = next.op_heads })
        × ((x : CommitId)
            → has_id x next.op_heads
              ≡ (text_eq x new || (has_id x repo.op_heads && not (has_id x old))))
  unfolding update_op_heads
  update_lem repo next old new c proper h =
      let (_, here, made) = >>=-eq-ok (ensure (has_operation repo new) head_not_stored) _ h in
      let is_here = ensure-eq-ok (has_operation repo new) head_not_stored here in
      let moved = λ (x : CommitId). k.has_id-replace repo.op_heads old new x proper in
      let later : OpenRepo = record repo { op_heads = jj.replace_heads repo.op_heads old new } in
      let e : later ≡ next = ground arith in
      rw (← e) (
        record {
          heads = λ x m.
              has_operation-heads repo later.op_heads x ∙ elim (Bool-cases (text_eq x new)) [
                | inl same ↦ rw (text_eq_sound x new same) is_here
                | inr other ↦ c.heads x (ground (arith, moved x))
              ];
          operations =
              λ id bytes m. IsEntire-heads jj repo later.op_heads bytes (c.operations id bytes m);
          views = c.views;
        },
        refl,
        moved,
      )

  pub publish_lem :
      (repo final : OpenRepo) (ps : List Published)
      → IsClosed jj repo
      → Proper ps
      → publish_heads jj repo ps ≡ ok final
      → HeadsMoved jj repo final ps
  unfolding publish_heads
  publish_lem repo final [] c proper h =
      let e : repo ≡ final = ground arith in
      rw (← e) (record {
        closed = c;
        only_heads = refl;
        kept = λ x m. inl m;
        published = λ x m. cc;
        origin = λ x m. ground arith;
      })
  publish_lem repo final (p ∷ ps) c proper h =
      let (next, updated, rest) = >>=-eq-ok (update_op_heads jj repo (p.1) (p.0)) _ h in
      let (closed, only, moved) = update_lem repo next (p.1) (p.0) c (proper.0) updated in
      let with_heads : OpenRepo → OpenRepo = λ r. record r { op_heads = final.op_heads } in
      let later = publish_lem next final ps closed (proper.1) rest in
      record {
        closed = later.closed;
        only_heads = later.only_heads ∙ ap with_heads only;
        kept = λ x m. elim (Bool-cases (has_id x (p.1))) [
          | inl old ↦ inr (inl old)
          | inr stays ↦ ⊎_elim inl (λ s. inr (inr s)) (later.kept x (ground (arith, moved x)))
        ];
        published = λ x m. elim (Bool-cases (text_eq x (p.0))) [
          | inl first ↦ ⊎_elim inl (λ s. inr (inr s)) (later.kept x (ground (arith, moved x)))
          | inr other ↦ ⊎_elim inl (λ s. inr (inr s)) (later.published x (ground arith))
        ];
        origin = λ x m. ground (arith, later.origin x m, moved x);
      }
