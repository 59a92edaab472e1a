-- ===== src/Repo/Transfer/Apply/Defs.antt =====
-- `stage`, `publish` and `superseded_by`.
use jj_mesh.Prelude.{
  ◌>>=◌, ensure, Result, ok, err, BTreeMap, get, nat_ord, bool_ord, pair_ord, list_ord, option_ord,
  reverse_ord, if◌then◌else◌, length, keep, ℕ, zero, suc, not, ◌&&◌, none, some, List, [], ◌∷◌,
  ◌++◌, map, ◌>>◌,
}
use jj_mesh.Config.Machine.{text_eq}
use jj_mesh.Repo.Codec.Messages.{CommitId, OpMeta}
use jj_mesh.Repo.Codec.Ids.{has_id}
use jj_mesh.Repo.Store.Defs.{
  read_operation, has_view, update_op_heads, OpStoreError, not_stored, OpenRepo, Jj,
}
use jj_mesh.Repo.Store.Walk.{push_parents, Frontier}
use jj_mesh.Repo.Store.Writes.{RawWriteBatch, write_operation_bytes, write_view_bytes, persist}
use jj_mesh.Repo.Transfer.Batch.{ops_by_id, OpBatch}

abbrev pub supersede_walk_budget : ℕ
supersede_walk_budget = 65536

-- What is published: a want with the local heads that it supersedes
abbrev pub Published : Type 0
Published = CommitId × List CommitId

pub record Staged : Type 0 where
  pub to_publish : List Published
  pub ops : ℕ

-- The variables of `superseded_by`
pub record Superseding : Type 0 where
  pub superseded : List CommitId
  pub frontier : Frontier

abbrev pub unwrap_or_default : {E : Type 0} → Result E (List CommitId) → List CommitId
unwrap_or_default (ok xs) = xs
unwrap_or_default (err e) = []

-- A `for` loop with `?` over a batch of writes
abbrev pub write_each :
    {A : Type 0}
    → (RawWriteBatch → A → Result OpStoreError RawWriteBatch)
    → RawWriteBatch
    → List A
    → Result OpStoreError RawWriteBatch
write_each write writes [] = ok writes
write_each write writes (x ∷ xs) = do more ← write writes x; write_each write more xs

module _ (jj : Jj) where
  -- `parents_of`: the batch first, and the local store as fallback
  abbrev pub read_parents : OpenRepo → CommitId → List CommitId
  read_parents repo id = unwrap_or_default (read_operation jj repo id >>= λ op. ok (op.parents))

  unfoldable pub parents_of : OpenRepo → BTreeMap CommitId OpMeta → CommitId → List CommitId
  parents_of repo batch id = elim (get id batch) [
    | none ↦ read_parents repo id
    | some meta ↦ meta.parents
  ]

  -- One round for the popped id
  unfoldable pub supersede_step :
      OpenRepo
      → BTreeMap CommitId OpMeta
      → CommitId
      → List CommitId
      → Superseding
      → CommitId
      → Superseding
  supersede_step repo batch want local_heads w id =
      if not (text_eq id want) && has_id id local_heads
      then record w { superseded = w.superseded ++ id ∷ [] }
      else record w { frontier = push_parents repo.root w.frontier (parents_of repo batch id) }

  unfoldable pub walk_superseded :
      OpenRepo
      → BTreeMap CommitId OpMeta
      → CommitId
      → List CommitId
      → ℕ
      → List CommitId
      → List CommitId
      → List CommitId
      → List CommitId
  walk_superseded repo batch want local_heads zero superseded visited stack = superseded
  walk_superseded repo batch want local_heads (suc budget) superseded visited [] = superseded
  walk_superseded repo batch want local_heads (suc budget) superseded visited (id ∷ stack) =
      let w =
        supersede_step repo batch want local_heads
          (record {
            superseded = superseded;
            frontier = record { visited = visited; stack = stack };
          })
          id in
      walk_superseded repo batch want local_heads budget w.superseded w.frontier.visited
        w.frontier.stack

  unfoldable pub superseded_by :
      OpenRepo → BTreeMap CommitId OpMeta → CommitId → List CommitId → List CommitId
  superseded_by repo batch want local_heads =
      walk_superseded repo batch want local_heads supersede_walk_budget [] [] (want ∷ [])

  -- The writes of `stage`, the views first
  unfoldable pub stage_writes : OpenRepo → OpBatch → Result OpStoreError RawWriteBatch
  stage_writes repo batch = do
    views ← write_each (λ w v. write_view_bytes repo w v.id v.bytes) [] batch.views
    write_each (λ w o. write_operation_bytes repo w o.id o.bytes) views batch.ops

  unfoldable pub publications : OpenRepo → OpBatch → List CommitId → List CommitId → List Published
  publications repo batch wants local_heads =
      map (λ want. (want, superseded_by repo (ops_by_id batch.ops) want local_heads))
        (keep (λ want. not (has_id want local_heads)) wants)

  -- The operation and its view can be read.
  abbrev pub readable : OpenRepo → Published → Result OpStoreError (Unit {0})
  readable repo p = do
    op ← read_operation jj repo (p.0)
    has ← has_view jj repo op.view_id
    ensure has not_stored

  abbrev pub all_readable : OpenRepo → List Published → Result OpStoreError (Unit {0})
  all_readable repo [] = ok tt
  all_readable repo (p ∷ ps) = do readable repo p; all_readable repo ps

  -- `stage`: the repo with the batch persisted, and what is to be published
  unfoldable pub stage :
      Result OpStoreError (Unit {0})
      → OpenRepo
      → OpBatch
      → List CommitId
      → List CommitId
      → Result OpStoreError (OpenRepo × Staged)
  stage imported repo batch wants local_heads = do
    imported
    writes ← stage_writes repo batch
    let after = persist repo writes
    let to_publish = publications after batch wants local_heads
    all_readable after to_publish
    ok (after, record { to_publish = to_publish; ops = length batch.ops })

  unfoldable pub publish_heads : OpenRepo → List Published → Result OpStoreError OpenRepo
  publish_heads repo [] = ok repo
  publish_heads repo (p ∷ ps) = do next ← update_op_heads jj repo (p.1) (p.0); publish_heads next ps

  -- `publish`
  unfoldable pub publish_staged :
      Result OpStoreError (Unit {0}) → OpenRepo → Staged → Result OpStoreError OpenRepo
  publish_staged mirrored repo staged = do mirrored; publish_heads repo staged.to_publish
