-- ===== src/Repo/Transfer/Serve/Ops.antt =====
-- The operation phase of `serve`. The walk of jj over a range of the operation log is a parameter that gives
-- the ids, children first; a failure is the text of its message.
use jj_mesh.Prelude.{
  ◌>>=◌, Result, ok, err, nat_ord, bool_ord, pair_ord, list_ord, option_ord, reverse_ord, leb, ◌==◌,
  if◌then◌else◌, length, is_empty, all, keep, Bool, false, not, ◌&&◌, Option, none, some, List, [],
  ◌∷◌, ◌++◌,
}
use jj_mesh.Config.Name.{Text}
use jj_mesh.Daemon.Hub.Router.{FetchRequest}
use jj_mesh.Repo.Codec.Messages.{CommitId, Operation}
use jj_mesh.Repo.Codec.Ids.{has_id}
use jj_mesh.Repo.Store.Defs.{
  Bytes, id_len, has_operation, read_operation_bytes, read_view_bytes, read_operation, rev,
  OpStoreError, OpenRepo, Jj,
}
use jj_mesh.Repo.Store.Walk.{rootless}
use jj_mesh.Net.Fetch.{max_wants, max_haves, OpFrame}
use jj_mesh.Repo.Transfer.Batch.{Codecs}
use jj_mesh.Repo.Transfer.Reachable.Defs.{ids}
use jj_mesh.Repo.Transfer.Serve.Phase.{
  op_phase_frame, send_frame, serve_phase, ServeError, Produced,
}

abbrev pub Walk : Type 0
Walk = OpenRepo → List CommitId → List CommitId → List CommitId

-- A message of jj or of the file system for a failure
abbrev pub Describe : Type 0
Describe = OpStoreError → Text

module _ (jj : Jj) where
  abbrev pub load_all : OpenRepo → List CommitId → Result OpStoreError (List (CommitId × Operation))
  load_all repo [] = ok []
  load_all repo (id ∷ ids) = do
    op ← read_operation jj repo id
    rest ← load_all repo ids
    ok ((id, op) ∷ rest)

  -- `ancestors_until` of src/repo/open.rs
  unfoldable pub ancestors_until :
      Walk
      → OpenRepo
      → List CommitId
      → List CommitId
      → Result OpStoreError (List (CommitId × Operation))
  ancestors_until walk repo heads known = do
    head_ops ← load_all repo heads
    root_ops ← load_all repo (keep (has_operation repo) known)
    load_all repo (rootless repo.root (rev (walk repo heads (keep (has_operation repo) known))))

-- The views of some operations, each once
abbrev pub distinct_views : List CommitId → List (CommitId × Operation) → List CommitId
distinct_views seen [] = []
distinct_views seen ((id, op) ∷ ops) =
    if has_id op.view_id seen
    then distinct_views seen ops
    else op.view_id ∷ distinct_views (op.view_id ∷ seen) ops

abbrev pub then_frames : {F : Type 0} → List F → Produced F → Produced F
then_frames fs p = record p { frames = fs ++ p.frames }

abbrev pub failed : {F : Type 0} → Text → Produced F
failed message = record { frames = []; failure = some message }

module _ (codecs : Codecs) (describe : Describe) where
  -- The view of an operation, unless it was sent
  abbrev pub view_frames : OpenRepo → List CommitId → CommitId → Result OpStoreError (List OpFrame)
  view_frames repo sent_views id =
      if has_id id sent_views
      then ok []
      else read_view_bytes repo id >>= λ view.
          ok (OpFrame.view_frame id (codecs.compress view) ∷ [])

  -- A step whose failure ends the producer
  abbrev pub or_fail : Result OpStoreError (List OpFrame) → Produced OpFrame → Produced OpFrame
  or_fail (err e) rest = failed (describe e)
  or_fail (ok frames) rest = then_frames frames rest

  unfoldable pub produce_ops :
      OpenRepo → List CommitId → List (CommitId × Operation) → Produced OpFrame
  produce_ops repo sent_views [] = record { frames = []; failure = none }
  produce_ops repo sent_views ((id, op) ∷ ops) =
      let rest = produce_ops repo (op.view_id ∷ sent_views) ops in
      or_fail (view_frames repo sent_views op.view_id) (
        or_fail
          (read_operation_bytes repo id >>= λ bytes.
            ok (OpFrame.op_frame id (codecs.compress bytes) ∷ []))
          rest)

  abbrev pub produce_delta :
      OpenRepo → Result OpStoreError (List (CommitId × Operation)) → Produced OpFrame
  produce_delta repo (err e) = failed (describe e)
  produce_delta repo (ok ops) =
      then_frames (OpFrame.op_begin (length ops) (length (distinct_views [] ops)) ∷ [])
        (produce_ops repo [] ops)

-- `validate_request`
unfoldable pub validate_request : OpenRepo → FetchRequest → Bool
validate_request repo request =
    not (is_empty request.wants)
    && (leb (length request.wants) max_wants
        && (leb (length request.haves) max_haves
            && all (λ id. length id == id_len repo) (request.wants ++ request.haves)))

-- The texts of the messages
pub record Messages : Type 0 where
  pub malformed : Text
  pub unknown_operation : CommitId → Text
  pub cannot_collect : Text

abbrev pub first_unknown : OpenRepo → List CommitId → Option CommitId
first_unknown repo [] = none
first_unknown repo (w ∷ ws) = if has_operation repo w then first_unknown repo ws else some w

-- What `serve` sends before the git phase, and whether that phase follows
module _ (jj : Jj) (codecs : Codecs) (describe : Describe) (messages : Messages) (walk : Walk) where
  abbrev pub refuse : Text → Result ServeError (Bytes × Bool)
  refuse message = do
    bytes ← send_frame (op_phase_frame codecs) (OpFrame.op_error message)
    ok (bytes, false)

  unfoldable pub serve_ops : OpenRepo → FetchRequest → Result ServeError (Bytes × Bool)
  serve_ops repo request =
      if validate_request repo request
      then elim (first_unknown repo request.wants) [
        | some want ↦ refuse (messages.unknown_operation want)
        | none ↦ serve_phase (op_phase_frame codecs) messages.cannot_collect (
            produce_delta codecs describe repo
              (ancestors_until jj walk repo request.wants request.haves))
      ]
      else refuse messages.malformed
