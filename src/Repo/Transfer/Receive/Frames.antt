-- ===== src/Repo/Transfer/Receive/Frames.antt =====
-- The variables of `receive_ops`, and what it does with one frame that carries data.
use jj_mesh.Prelude.{
  ensure, Result, ok, nat_ord, bool_ord, pair_ord, list_ord, option_ord, reverse_ord, ◌==◌,
  if◌then◌else◌, length, all, ℕ, ◌+◌, min, Bool, true, false, not, ◌||◌, some, List, [], ◌∷◌, ◌++◌,
  ◌>>=◌, ◌>>◌,
}
use jj_mesh.Repo.Codec.Messages.{CommitId, OpMeta, ViewMeta}
use jj_mesh.Repo.Codec.Ids.{has_id, parse_operation}
use jj_mesh.Repo.Codec.Views.{parse_view}
use jj_mesh.Repo.Store.Defs.{Bytes, is_root, id_len, has_operation, has_view, OpenRepo, Jj}
use jj_mesh.Net.Fetch.{max_op_frame_size, decompress_payload}
use jj_mesh.Repo.Transfer.Batch.{
  start_progress, or_else, TransferPhase, TransferError, store_failure, codec_failure,
  payload_failure, begin_twice, begin_after_data, bad_id_length, claims_root, sent_twice,
  before_parent, unknown_view, TransferProgress, StoredOp, StoredView, Codecs,
}

abbrev pub max_op_frames : ℕ
max_op_frames = 1048576

abbrev pub u64_max : ℕ
u64_max = 18446744073709551615

-- `saturating_add` of `u64`
abbrev pub saturating_add : ℕ → ℕ → ℕ
saturating_add a b = min (a + b) u64_max

-- The variables of the loop
pub record Receiving : Type 0 where
  pub ops : List StoredOp
  pub views : List StoredView
  pub op_ids : List CommitId
  pub view_ids : List CommitId
  pub counters : TransferProgress
  pub begun : Bool
  pub data_seen : Bool

abbrev pub start_receiving : Receiving
start_receiving = record {
  ops = [];
  views = [];
  op_ids = [];
  view_ids = [];
  counters = start_progress TransferPhase.ops_phase;
  begun = false;
  data_seen = false;
}

-- What a data frame does before it is validated
abbrev pub counted : Receiving → Bytes → Receiving
counted r payload = record r {
  data_seen = true;
  counters = record (r.counters) {
    current = r.counters.current + 1;
    bytes = r.counters.bytes + length payload;
  };
}

abbrev pub receive_begin : Receiving → ℕ → ℕ → Result TransferError Receiving
receive_begin r total_ops total_views = do
  ensure (not r.begun) begin_twice
  ensure (not r.data_seen) begin_after_data
  ok (record r {
    begun = true;
    counters = record (r.counters) { total = some (saturating_add total_ops total_views) };
  })

abbrev pub push_view : Receiving → CommitId → Bytes → ViewMeta → Receiving
push_view r id bytes meta = if has_id id r.view_ids then r else record r {
  view_ids = id ∷ r.view_ids;
  views = r.views ++ record { id = id; bytes = bytes; meta = meta } ∷ [];
}

abbrev pub push_op : Receiving → CommitId → Bytes → OpMeta → Receiving
push_op r id bytes meta = record r {
  op_ids = id ∷ r.op_ids;
  ops = r.ops ++ record { id = id; bytes = bytes; meta = meta } ∷ [];
}

abbrev pub op_payload : Codecs → Bytes → Result TransferError Bytes
op_payload codecs payload =
    or_else payload_failure (decompress_payload codecs.decoder payload max_op_frame_size)

-- A parent is in the batch, or is stored.
abbrev pub has_parent : OpenRepo → List CommitId → CommitId → Bool
has_parent repo op_ids parent =
    has_id parent op_ids || (is_root repo parent || has_operation repo parent)

module _ (jj : Jj) (codecs : Codecs) (repo : OpenRepo) where
  unfoldable pub receive_view : Receiving → CommitId → Bytes → Result TransferError Receiving
  receive_view r id payload = do
    ensure (length id == id_len repo) bad_id_length
    bytes ← op_payload codecs payload
    meta ← or_else codec_failure (parse_view jj.is_known jj.decode_view bytes)
    ok (push_view (counted r payload) id bytes meta)

  abbrev pub knows_view : List CommitId → CommitId → Result TransferError Bool
  knows_view view_ids id =
      if has_id id view_ids then ok true else or_else store_failure (has_view jj repo id)

  unfoldable pub receive_op : Receiving → CommitId → Bytes → Result TransferError Receiving
  receive_op r id payload = do
    ensure (length id == id_len repo) bad_id_length
    ensure (not (is_root repo id)) claims_root
    bytes ← op_payload codecs payload
    meta ← or_else codec_failure (parse_operation jj.decode_operation bytes)
    ensure (not (has_id id r.op_ids)) sent_twice
    ensure (all (has_parent repo r.op_ids) meta.parents) before_parent
    known ← knows_view r.view_ids meta.view_id
    ensure known unknown_view
    ok (push_op (counted r payload) id bytes meta)
