-- ===== src/Repo/Transfer/Batch.antt =====
-- The counters of a transfer, the batch that a fetch receives, and what its functions call of other code.
use jj_mesh.Prelude.{
  Result, ok, err, BTreeMap, insert, nat_ord, bool_ord, pair_ord, list_ord, option_ord, reverse_ord,
  ℕ, ◌≡◌, Bool, true, Option, none, some, List, [], foldl,
}
use jj_mesh.Config.Name.{Text}
use jj_mesh.Repo.Codec.Messages.{CommitId, CodecError, OpMeta, ViewMeta}
use jj_mesh.Repo.Store.Defs.{Bytes, OpStoreError}
use jj_mesh.Net.Wire.{WireError}
use jj_mesh.Net.Fetch.{PayloadError, OpFrame, GitFrame}

-- The stages of a fetch, in order
pub data TransferPhase : Type 0 where
  ops_phase git_phase apply_phase index_phase : TransferPhase

pub record TransferProgress : Type 0 where
  pub phase : TransferPhase
  pub current : ℕ
  pub total : Option ℕ
  pub bytes : ℕ

-- `TransferProgress::start`
abbrev pub start_progress : TransferPhase → TransferProgress
start_progress phase = record { phase = phase; current = 0; total = none; bytes = 0 }

pub record FetchOutcome : Type 0 where
  pub ops : ℕ
  pub git_objects : ℕ

pub record StoredOp : Type 0 where
  pub id : CommitId
  pub bytes : Bytes
  pub meta : OpMeta

pub record StoredView : Type 0 where
  pub id : CommitId
  pub bytes : Bytes
  pub meta : ViewMeta

-- The operations stand parents first, as received.
pub record OpBatch : Type 0 where
  pub ops : List StoredOp
  pub views : List StoredView

-- `ops_by_id`: the last operation of an id counts.
unfoldable pub ops_by_id : List StoredOp → BTreeMap CommitId OpMeta
ops_by_id ops = foldl (λ m o. insert o.id o.meta m) [] ops

-- The codecs of other packages: zstd and postcard
pub record Codecs : Type 0 where
  pub compress : Bytes → Bytes
  pub decoder : Bytes → Option (Bytes × Bool)
  pub encode_op_frame : OpFrame → Bytes
  pub decode_op_frame : Bytes → Option (OpFrame × Bytes)
  pub encode_git_frame : GitFrame → Bytes
  pub decode_git_frame : Bytes → Option (GitFrame × Bytes)

-- A payload is decompressed to what was compressed, and a message is decoded to what was encoded.
pub record RoundTrips (codecs : Codecs) : Type 0 where
  pub decoder-compress :
      (bytes : Bytes) → codecs.decoder (codecs.compress bytes) ≡ some (bytes, true)
  pub decode-op_frame :
      (f : OpFrame) → codecs.decode_op_frame (codecs.encode_op_frame f) ≡ some (f, [])
  pub decode-git_frame :
      (f : GitFrame) → codecs.decode_git_frame (codecs.encode_git_frame f) ≡ some (f, [])

pub data TransferError : Type 0 where
  wire_failure : WireError → TransferError
  store_failure : OpStoreError → TransferError
  codec_failure : CodecError → TransferError
  payload_failure : PayloadError → TransferError
  bad_wants begin_twice begin_after_data bad_id_length : TransferError
  claims_root sent_twice before_parent unknown_view : TransferError
  want_not_sent unreachable_ops too_many_frames : TransferError
  refused : Text → TransferError
  bad_object_id not_its_content pack_in_loose object_in_pack : TransferError
  git_wants_absent : TransferError
  -- no failure of the source: the fuel of a loop is spent
  out_of_fuel : TransferError

-- `?` with the conversion of the error
abbrev pub or_else {ℓ} : {E F A : Type ℓ} → (E → F) → Result E A → Result F A
or_else f (ok a) = ok a
or_else f (err e) = err (f e)
