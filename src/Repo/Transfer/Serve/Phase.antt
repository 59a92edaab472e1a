-- ===== src/Repo/Transfer/Serve/Phase.antt =====
-- `serve_phase`: the frames of a producer, and the frame that ends the phase.
use jj_mesh.Prelude.{
  Result, ok, err, nat_ord, bool_ord, pair_ord, list_ord, option_ord, reverse_ord, ℕ, Bool, true,
  false, Option, none, some, List, [], ◌∷◌, ◌++◌, ◌>>=◌,
}
use jj_mesh.Config.Name.{Text}
use jj_mesh.Repo.Store.Defs.{Bytes}
use jj_mesh.Net.Wire.{write_message, WireError}
use jj_mesh.Net.Fetch.{max_op_frame_size, max_git_frame_size, OpFrame, GitFrame}
use jj_mesh.Repo.Transfer.Batch.{Codecs}

pub data ServeError : Type 0 where
  write_failed : WireError → ServeError
  read_failed : WireError → ServeError
  -- the panic of `write_message` on a message that a `u32` cannot measure
  panicked : ServeError

-- The frames that a producer sends before it ends, and its failure
pub record Produced (F : Type 0) : Type 0 where
  pub frames : List F
  pub failure : Option Text

-- The interface `PhaseFrame`, with the encoding of the frames
pub record PhaseFrame (F : Type 0) : Type 0 where
  pub max_size : ℕ
  pub done_frame : F
  pub error_frame : Text → F
  pub encode : F → Bytes

abbrev pub op_phase_frame : Codecs → PhaseFrame OpFrame
op_phase_frame codecs = record {
  max_size = max_op_frame_size;
  done_frame = OpFrame.op_done;
  error_frame = OpFrame.op_error;
  encode = codecs.encode_op_frame;
}

abbrev pub git_phase_frame : Codecs → PhaseFrame GitFrame
git_phase_frame codecs = record {
  max_size = max_git_frame_size;
  done_frame = GitFrame.git_done;
  error_frame = GitFrame.git_error;
  encode = codecs.encode_git_frame;
}

abbrev pub sent : Option (Result WireError Bytes) → Result ServeError Bytes
sent none = err panicked
sent (some (err e)) = err (write_failed e)
sent (some (ok bytes)) = ok bytes

module _ {F : Type 0} (phase : PhaseFrame F) where
  unfoldable pub send_frame : F → Result ServeError Bytes
  send_frame frame = sent (write_message phase.encode phase.max_size frame)

  unfoldable pub send_frames : List F → Result ServeError Bytes
  send_frames [] = ok []
  send_frames (f ∷ fs) = do bytes ← send_frame f; rest ← send_frames fs; ok (bytes ++ rest)

  abbrev pub last_frame : Text → Option Text → F
  last_frame context none = phase.done_frame
  last_frame context (some message) = phase.error_frame (context ++ message)

  abbrev pub completed : Option Text → Bool
  completed none = true
  completed (some message) = false

  -- What is sent, and whether the exchange goes on
  unfoldable pub serve_phase : Text → Produced F → Result ServeError (Bytes × Bool)
  serve_phase context produced = do
    bytes ← send_frames produced.frames
    last ← send_frame (last_frame context produced.failure)
    ok (bytes ++ last, completed produced.failure)
