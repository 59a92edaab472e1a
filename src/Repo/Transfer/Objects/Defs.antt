-- ===== src/Repo/Transfer/Objects/Defs.antt =====
-- `serve_git_phase` and `serve_git_loose`. The Git store of the server is a map, as that of the fetcher is; the
-- walk over the closure and the pack format are arguments.
use jj_mesh.Prelude.{
  ◌>>=◌, Result, ok, err, get, nat_ord, bool_ord, pair_ord, list_ord, option_ord, reverse_ord, leb,
  ◌==◌, if◌then◌else◌, length, is_empty, all, ℕ, Bool, not, ◌&&◌, Option, none, some, [], ◌∷◌, ◌++◌,
}
use jj_mesh.Config.Name.{Text}
use jj_mesh.Repo.Codec.Messages.{CommitId}
use jj_mesh.Repo.Store.Defs.{Bytes}
use jj_mesh.Net.Wire.{read_message, WireError}
use jj_mesh.Net.Fetch.{
  max_git_request_size, max_git_haves, GitTransferFormat, WireObjectKind, GitFrame, GitRequest,
}
use jj_mesh.Repo.Transfer.Batch.{Codecs}
use jj_mesh.Repo.Transfer.Serve.Phase.{
  git_phase_frame, send_frame, serve_phase, ServeError, read_failed, Produced,
}
use jj_mesh.Repo.Transfer.Serve.Ops.{then_frames, failed}
use jj_mesh.Repo.Transfer.Loose.Defs.{GitStore}
use jj_mesh.Repo.Transfer.Closure.Defs.{Emitted}

-- The objects that the walk emits before it ends, and its failure
pub record Walked : Type 0 where
  pub emitted : Emitted
  pub failure : Option Text

-- The texts of the messages
pub record GitMessages : Type 0 where
  pub malformed_git : Text
  pub cannot_walk : Text
  pub missing_object : CommitId → Text

-- The test of the request
unfoldable pub validate_git_request : ℕ → GitRequest → Bool
validate_git_request hash_len request =
    leb (length request.haves) max_git_haves
    && all (λ id. length id == hash_len) (request.wants ++ request.haves)

abbrev pub read_request : {A : Type 0} → Result WireError A → Result ServeError A
read_request (ok a) = ok a
read_request (err e) = err (read_failed e)

module _ (codecs : Codecs) (messages : GitMessages) (git : GitStore) where
  -- One emitted object, before the later frames
  abbrev pub produce_object :
      CommitId
      → WireObjectKind
      → Option (WireObjectKind × Bytes)
      → Produced GitFrame
      → Produced GitFrame
  produce_object id kind none later = failed (messages.missing_object id)
  produce_object id kind (some (stored_kind, content)) later =
      then_frames (GitFrame.object_frame id kind (codecs.compress content) ∷ []) later

  unfoldable pub produce_objects : Emitted → Option Text → Produced GitFrame
  produce_objects [] failure = record { frames = []; failure = failure }
  produce_objects ((id, kind) ∷ emitted) failure =
      produce_object id kind (get id git) (produce_objects emitted failure)

  unfoldable pub serve_git_loose : Walked → Result ServeError (Bytes × Bool)
  serve_git_loose walked =
      serve_phase (git_phase_frame codecs) messages.cannot_walk
        (produce_objects walked.emitted walked.failure)

  module _ (hash_len : ℕ) (decode_request : Bytes → Option (GitRequest × Bytes))
      (walk : GitRequest → Walked) (serve_git_pack : GitRequest → Result ServeError Bytes) where
    abbrev pub answer_git : GitRequest → Result ServeError Bytes
    answer_git request =
        if not (validate_git_request hash_len request)
        then send_frame (git_phase_frame codecs) (GitFrame.git_error messages.malformed_git)
        else if is_empty request.wants
        then send_frame (git_phase_frame codecs) GitFrame.git_done
        else elim request.format [
          | GitTransferFormat.loose ↦ serve_git_loose (walk request) >>= λ served. ok (served.0)
          | GitTransferFormat.pack ↦ serve_git_pack request
        ]

    -- The bytes that answer the request on the stream
    unfoldable pub serve_git_phase : Bytes → Result ServeError Bytes
    serve_git_phase stream =
        read_request (read_message decode_request max_git_request_size stream) >>= λ read.
        answer_git (read.0)
