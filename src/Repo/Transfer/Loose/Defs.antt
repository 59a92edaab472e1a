-- ===== src/Repo/Transfer/Loose/Defs.antt =====
-- The Git phase of src/repo/transfer/fetch.rs in the loose format, and what the fetch asks for in it. The Git
-- store is a map from ids to objects; the hash of an object is a parameter. The writing of a chunk runs beside
-- the reading of the next one, and its failure is seen when it is awaited.
use jj_mesh.Prelude.{
  ◌>>=◌, ensure, Result, ok, err, BTreeMap, contains_key, insert, nat_ord, bool_ord, pair_ord,
  list_ord, option_ord, reverse_ord, leb, ◌==◌, if◌then◌else◌, length, is_empty, all, ℕ, zero, suc,
  ◌+◌, ◌⊎◌, inl, inr, Bool, true, false, ◌||◌, List, [], ◌∷◌, ◌++◌, foldl, ◌>>◌,
}
use jj_mesh.Config.Name.{take, sanitize}
use jj_mesh.Config.Machine.{text_eq}
use jj_mesh.Repo.Codec.Messages.{CommitId}
use jj_mesh.Repo.Codec.Ids.{IdSet, has_id, add_all}
use jj_mesh.Repo.Store.Defs.{Bytes, is_virtual_root}
use jj_mesh.Net.Wire.{read_message}
use jj_mesh.Net.Fetch.{
  max_git_frame_size, max_git_haves, max_git_object_size, decompress_payload, GitTransferFormat,
  WireObjectKind, GitFrame, GitRequest,
}
use jj_mesh.Repo.Transfer.Batch.{
  start_progress, or_else, TransferPhase, TransferError, wire_failure, payload_failure, out_of_fuel,
  refused, bad_object_id, not_its_content, pack_in_loose, git_wants_absent, TransferProgress,
  StoredView, OpBatch, Codecs,
}
use jj_mesh.Repo.Transfer.Reachable.Defs.{ids}

abbrev pub git_write_chunk : ℕ
git_write_chunk = 256

abbrev pub git_write_bytes : ℕ
git_write_bytes = 33554432

-- An object as it was received
pub record RawObject : Type 0 where
  pub id : CommitId
  pub kind : WireObjectKind
  pub payload : Bytes

abbrev pub GitStore : Type 0
GitStore = BTreeMap CommitId (WireObjectKind × Bytes)

-- What is called of gix: the length of its hashes, and the hash of an object
pub record Gix : Type 0 where
  pub hash_len : ℕ
  pub compute_hash : WireObjectKind → Bytes → CommitId

-- `referenced_commits`
abbrev pub view_commits : List StoredView → IdSet
view_commits [] = []
view_commits (v ∷ vs) = add_all (view_commits vs) v.meta.referenced_commits

unfoldable pub referenced_commits : OpBatch → IdSet
referenced_commits batch =
    foldl (λ ids o. add_all ids o.meta.referenced_commits) (view_commits batch.views) batch.ops

-- The commits that the peer is asked for, and those that it is told of
pub record GitNeeds : Type 0 where
  pub wanted : List CommitId
  pub held : List CommitId

module _ (gix : Gix) (git : GitStore) where
  abbrev pub sort_need : GitNeeds → CommitId → Result TransferError GitNeeds
  sort_need n id = if is_virtual_root id then ok n else do
    ensure (length id == gix.hash_len) bad_object_id
    ok (
        if contains_key id git
        then record n { held = n.held ++ id ∷ [] }
        else record n { wanted = n.wanted ++ id ∷ [] })

  unfoldable pub sort_needs : GitNeeds → List CommitId → Result TransferError GitNeeds
  sort_needs n [] = ok n
  sort_needs n (id ∷ ids) = do next ← sort_need n id; sort_needs next ids

-- `retain` with a set: the first of equal ids stays.
abbrev pub retain_new : List CommitId → List CommitId → List CommitId
retain_new seen [] = []
retain_new seen (x ∷ xs) =
    if has_id x seen then retain_new seen xs else x ∷ retain_new (x ∷ seen) xs

-- The request of the Git phase, from the heads of the local views
unfoldable pub git_request :
    Gix
    → GitStore
    → GitTransferFormat
    → List CommitId
    → List CommitId
    → Result TransferError GitRequest
git_request gix git format view_heads referenced = do
  needs ← sort_needs gix git (record { wanted = []; held = view_heads }) referenced
  ok (record {
    wants = needs.wanted;
    haves = take max_git_haves (retain_new [] needs.held);
    format = if is_empty needs.wanted then GitTransferFormat.loose else format;
  })

-- The variables of the loop: the chunk, its bytes, the total, the counters, and the write that is pending
pub record LooseReceiving : Type 0 where
  pub chunk : List RawObject
  pub chunk_bytes : ℕ
  pub total : ℕ
  pub counters : TransferProgress
  pub pending : List RawObject

abbrev pub push_object : LooseReceiving → RawObject → LooseReceiving
push_object r o = record r {
  chunk = r.chunk ++ o ∷ [];
  chunk_bytes = r.chunk_bytes + length o.payload;
  total = r.total + 1;
  counters = record (r.counters) {
    current = r.counters.current + 1;
    bytes = r.counters.bytes + length o.payload;
  };
}

abbrev pub is_full : LooseReceiving → Bool
is_full r = leb git_write_chunk (length r.chunk) || leb git_write_bytes r.chunk_bytes

abbrev pub start_loose : LooseReceiving
start_loose = record {
  chunk = [];
  chunk_bytes = 0;
  total = 0;
  counters = start_progress TransferPhase.git_phase;
  pending = [];
}

module _ (gix : Gix) (codecs : Codecs) where
  -- One object of `write_git_chunk`
  unfoldable pub write_object : GitStore → RawObject → Result TransferError GitStore
  write_object git o = do
    content ←
        or_else payload_failure (decompress_payload codecs.decoder o.payload max_git_object_size)
    ensure (text_eq (gix.compute_hash o.kind content) o.id) not_its_content
    ok (if contains_key o.id git then git else insert o.id (o.kind, content) git)

  unfoldable pub write_git_chunk : GitStore → List RawObject → Result TransferError GitStore
  write_git_chunk git [] = ok git
  write_git_chunk git (o ∷ os) = do next ← write_object git o; write_git_chunk next os

  -- A full chunk waits for the pending write, and becomes the pending one.
  abbrev pub flush : GitStore → LooseReceiving → Result TransferError (GitStore × LooseReceiving)
  flush git r = elim (is_full r) [
    | true ↦ write_git_chunk git r.pending >>= λ next.
        ok (next, record r { pending = r.chunk; chunk = []; chunk_bytes = 0 })
    | false ↦ ok (git, r)
  ]

  abbrev pub finish_loose : GitStore → LooseReceiving → Result TransferError (GitStore × ℕ)
  finish_loose git r = do
    next ← write_git_chunk git r.pending
    last ← write_git_chunk next r.chunk
    ok (last, r.total)

  -- What one frame leads to: the variables to go on with, or the end
  unfoldable pub receive_git_frame :
      GitStore
      → LooseReceiving
      → GitFrame
      → Result TransferError ((GitStore × LooseReceiving) ⊎ (GitStore × ℕ))
  receive_git_frame git r (GitFrame.object_frame id kind payload) = do
    ensure (length id == gix.hash_len) bad_object_id
    next ← flush git (push_object r (record { id = id; kind = kind; payload = payload }))
    ok (inl next)
  receive_git_frame git r GitFrame.git_done = do last ← finish_loose git r; ok (inr last)
  receive_git_frame git r (GitFrame.pack_frame chunk) = err pack_in_loose
  receive_git_frame git r (GitFrame.git_error message) = err (refused (sanitize message))

  -- The loop of the source has no bound; `out_of_fuel` is no failure of it.
  unfoldable pub loose_rounds :
      ℕ → GitStore → LooseReceiving → Bytes → Result TransferError (GitStore × ℕ)
  loose_rounds zero git r stream = err out_of_fuel
  loose_rounds (suc fuel) git r stream =
      or_else wire_failure (read_message codecs.decode_git_frame max_git_frame_size stream)
      >>= λ read. receive_git_frame git r (read.0) >>= λ next. elim next [
        | inl more ↦ loose_rounds fuel (more.0) (more.1) (read.1)
        | inr last ↦ ok last
      ]

  unfoldable pub receive_git_loose : GitStore → Bytes → Result TransferError (GitStore × ℕ)
  receive_git_loose git stream = loose_rounds (length stream + 1) git start_loose stream

-- `ensure_git_wants_arrived`
unfoldable pub ensure_git_wants_arrived : GitStore → List CommitId → Result TransferError (Unit {0})
ensure_git_wants_arrived git requested =
    ensure (all (λ id. contains_key id git) requested) git_wants_absent
