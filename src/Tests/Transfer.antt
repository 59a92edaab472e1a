-- ===== src/Tests/Transfer.antt =====
-- A server with one operation more than the fetcher. The frames are encoded as their fields, with the length
-- of an id before it; the payloads are not compressed.
use jj_mesh.Prelude.{
  Result, ok, err, get, insert, nat_ord, bool_ord, pair_ord, list_ord, option_ord, reverse_ord,
  length, keep, ℕ, zero, suc, ◌≡◌, refl, ap, true, false, not, Option, none, some, List, [], ◌∷◌,
  ◌++◌, arith,
}
use jj_mesh.Config.Name.{take}
use jj_mesh.Config.Membership.Peers.{peer_register}
use jj_mesh.Config.Membership.Repos.{repo_register}
use jj_mesh.Config.Claims.{claims_register}
use jj_mesh.Repo.Codec.Messages.{CommitId, Operation, View, OpMeta}
use jj_mesh.Repo.Codec.Ids.{has_id, add, add_all, parse_operation}
use jj_mesh.Repo.Codec.Views.{parse_view}
use jj_mesh.Repo.Sets.{has_id-keep}
use jj_mesh.Repo.Store.Defs.{Bytes, has_operation, has_view, OpenRepo, Jj, KeepsHeads}
use jj_mesh.Net.Wire.{to_le_bytes, read_exact, read_message, read_exact-append, WireError}
use jj_mesh.Net.Fetch.{decompress_payload, OpFrame, WireObjectKind, GitFrame}
use jj_mesh.Repo.Transfer.Apply.Closed.{ReadsStored}
use jj_mesh.Repo.Transfer.Batch.{ops_by_id, StoredOp, OpBatch, Codecs, RoundTrips}
use jj_mesh.Repo.Transfer.Receive.Frames.{receive_view, receive_op}
use jj_mesh.Repo.Transfer.Reachable.Defs.{
  visit, walk_batch, parents_left, reachable_in, ensure_batch_reachable,
}
use jj_mesh.Repo.Transfer.Receive.Loop.{receive_frame, receive_rounds, receive_ops}

abbrev fill : ℕ → ℕ → List ℕ
fill zero x = []
fill (suc n) x = x ∷ fill n x

abbrev pub root_id : CommitId
root_id = fill 64 0

abbrev pub old_id : CommitId
old_id = fill 64 1

abbrev pub new_id : CommitId
new_id = fill 64 2

abbrev pub old_view : CommitId
old_view = fill 64 3

abbrev pub new_view : CommitId
new_view = fill 64 4

abbrev pub old_op : Operation
old_op = record { view_id = old_view; parents = root_id ∷ []; commit_predecessors = [] }

abbrev pub new_op : Operation
new_op = record { view_id = new_view; parents = old_id ∷ []; commit_predecessors = [] }

abbrev pub empty_view : View
empty_view = record {
  head_ids = [];
  wc_commit_id = [];
  wc_commit_ids = [];
  bookmarks = [];
  local_tags = [];
  remote_views = [];
  git_refs = [];
  migrated = false;
  git_head_legacy = [];
  git_head = none;
  git_heads = [];
}

abbrev pub decode_op : Bytes → Option Operation
decode_op (suc zero ∷ []) = some old_op
decode_op _ = some new_op

abbrev pub jj : Jj
jj = record {
  decode_operation = decode_op;
  decode_view = λ bytes. some empty_view;
  load_operation = decode_op;
  load_view = λ bytes. some empty_view;
  is_known = λ state. true;
  replace_heads = λ heads old new. new ∷ keep (λ h. not (has_id h old)) heads;
}

pub reads_stored : ReadsStored jj
reads_stored = record { reads_operation = λ bytes op e a b c. e; reads_view = λ bytes v e r. e }

pub keeps_heads : KeepsHeads jj
keeps_heads = record {
  has_id-replace =
      λ heads old new x n. ground (arith, has_id-keep (λ h. not (has_id h old)) x heads);
}

abbrev encode_op : OpFrame → Bytes
encode_op (OpFrame.op_begin ops views) = 0 ∷ ops ∷ views ∷ []
encode_op (OpFrame.view_frame id payload) = 1 ∷ length id ∷ id ++ payload
encode_op (OpFrame.op_frame id payload) = 2 ∷ length id ∷ id ++ payload
encode_op OpFrame.op_done = 3 ∷ []
encode_op (OpFrame.op_error message) = 4 ∷ message

abbrev with_id :
    (CommitId → Bytes → OpFrame) → Result WireError (Bytes × Bytes) → Option (OpFrame × Bytes)
with_id frame (ok (id, payload)) = some (frame id payload, [])
with_id frame (err e) = none

abbrev decode_frame : Bytes → Option (OpFrame × Bytes)
decode_frame (zero ∷ ops ∷ views ∷ rest) = some (OpFrame.op_begin ops views, rest)
decode_frame (suc zero ∷ n ∷ bytes) = with_id OpFrame.view_frame (read_exact n bytes)
decode_frame (suc (suc zero) ∷ n ∷ bytes) = with_id OpFrame.op_frame (read_exact n bytes)
decode_frame (suc (suc (suc zero)) ∷ rest) = some (OpFrame.op_done, rest)
decode_frame (suc (suc (suc (suc zero))) ∷ message) = some (OpFrame.op_error message, [])
decode_frame _ = none

decode-encode_op : (f : OpFrame) → decode_frame (encode_op f) ≡ some (f, [])
decode-encode_op (OpFrame.op_begin ops views) = refl
decode-encode_op (OpFrame.view_frame id payload) =
    ap (with_id OpFrame.view_frame) (read_exact-append id payload)
decode-encode_op (OpFrame.op_frame id payload) =
    ap (with_id OpFrame.op_frame) (read_exact-append id payload)
decode-encode_op OpFrame.op_done = refl
decode-encode_op (OpFrame.op_error message) = refl

abbrev kind_code : WireObjectKind → ℕ
kind_code WireObjectKind.commit_object = 0
kind_code WireObjectKind.tree_object = 1
kind_code WireObjectKind.blob_object = 2
kind_code WireObjectKind.tag_object = 3

abbrev kind_of : ℕ → WireObjectKind
kind_of zero = WireObjectKind.commit_object
kind_of (suc zero) = WireObjectKind.tree_object
kind_of (suc (suc zero)) = WireObjectKind.blob_object
kind_of _ = WireObjectKind.tag_object

abbrev pub encode_git : GitFrame → Bytes
encode_git (GitFrame.object_frame id kind payload) = 0 ∷ kind_code kind ∷ length id ∷ id ++ payload
encode_git (GitFrame.pack_frame chunk) = 1 ∷ chunk
encode_git GitFrame.git_done = 2 ∷ []
encode_git (GitFrame.git_error message) = 3 ∷ message

abbrev object_of : WireObjectKind → Result WireError (Bytes × Bytes) → Option (GitFrame × Bytes)
object_of kind (ok (id, payload)) = some (GitFrame.object_frame id kind payload, [])
object_of kind (err e) = none

abbrev decode_git : Bytes → Option (GitFrame × Bytes)
decode_git (zero ∷ kind ∷ n ∷ bytes) = object_of (kind_of kind) (read_exact n bytes)
decode_git (suc zero ∷ chunk) = some (GitFrame.pack_frame chunk, [])
decode_git (suc (suc zero) ∷ rest) = some (GitFrame.git_done, rest)
decode_git (suc (suc (suc zero)) ∷ message) = some (GitFrame.git_error message, [])
decode_git _ = none

kind_of-code : (kind : WireObjectKind) → kind_of (kind_code kind) ≡ kind
kind_of-code WireObjectKind.commit_object = refl
kind_of-code WireObjectKind.tree_object = refl
kind_of-code WireObjectKind.blob_object = refl
kind_of-code WireObjectKind.tag_object = refl

decode-encode_git : (f : GitFrame) → decode_git (encode_git f) ≡ some (f, [])
decode-encode_git (GitFrame.object_frame id kind payload) =
    rw (kind_of-code kind, read_exact-append id payload) refl
decode-encode_git (GitFrame.pack_frame chunk) = refl
decode-encode_git GitFrame.git_done = refl
decode-encode_git (GitFrame.git_error message) = refl

abbrev pub codecs : Codecs
codecs = record {
  compress = λ bytes. bytes;
  decoder = λ bytes. some (bytes, true);
  encode_op_frame = encode_op;
  decode_op_frame = decode_frame;
  encode_git_frame = encode_git;
  decode_git_frame = decode_git;
}

pub trips : RoundTrips codecs
trips = record {
  decoder-compress = λ bytes. refl;
  decode-op_frame = decode-encode_op;
  decode-git_frame = decode-encode_git;
}

abbrev pub fetcher : OpenRepo
fetcher = record {
  root = root_id;
  op_heads = old_id ∷ [];
  operations = (old_id, 1 ∷ []) ∷ [];
  views = (old_view, 3 ∷ []) ∷ [];
}

abbrev pub server : OpenRepo
server = record {
  root = root_id;
  op_heads = new_id ∷ [];
  operations = (old_id, 1 ∷ []) ∷ (new_id, 2 ∷ []) ∷ [];
  views = (old_view, 3 ∷ []) ∷ (new_view, 4 ∷ []) ∷ [];
}

abbrev pub new_meta : OpMeta
new_meta = record { view_id = new_view; parents = old_id ∷ []; referenced_commits = [] }

abbrev pub stored : StoredOp
stored = record { id = new_id; bytes = 2 ∷ []; meta = new_meta }

abbrev pub batch : OpBatch
batch = record {
  ops = stored ∷ [];
  views =
      record {
        id = new_view;
        bytes = 4 ∷ [];
        meta = record { head_ids = []; referenced_commits = [] };
      }
      ∷ [];
}

abbrev pub framed : Bytes → Bytes
framed bytes = to_le_bytes (length bytes) ++ bytes

abbrev pub stream : Bytes
stream =
    framed (encode_op (OpFrame.op_begin 1 1))
    ++ framed (encode_op (OpFrame.view_frame new_view (4 ∷ [])))
    ++ framed (encode_op (OpFrame.op_frame new_id (2 ∷ [])))
    ++ framed (encode_op OpFrame.op_done)

pub received : receive_ops jj codecs fetcher (new_id ∷ []) stream ≡ ok (batch, [])
unfolding receive_ops receive_rounds receive_frame receive_view receive_op read_message read_exact
    parse_operation parse_view has_operation has_view decompress_payload ensure_batch_reachable
    reachable_in walk_batch visit parents_left ops_by_id take get insert add_all add
received = refl
