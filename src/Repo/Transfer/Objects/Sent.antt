-- ===== src/Repo/Transfer/Objects/Sent.antt =====
-- The lemmas on one frame of `produce_objects`, and the round of the fetcher that takes it.
use jj_mesh.Prelude.{
  ok, get, nat_ord, bool_ord, pair_ord, list_ord, option_ord, reverse_ord, ◌==◌, length,
  length-append, All, ℕ, zero, suc, ◌+◌, ◌≤◌, ◌<◌, ◌≡◌, refl, true, some, List, [], ◌∷◌, ◌++◌,
  arith,
}
use jj_mesh.Config.Machine.{text_eq}
use jj_mesh.Repo.Codec.Messages.{CommitId}
use jj_mesh.Repo.Store.Defs.{Bytes}
use jj_mesh.Net.Wire.{to_le_bytes, write_message, read_message, read-write_message}
use jj_mesh.Net.Fetch.{
  max_git_frame_size, max_git_object_size, decompress_payload, decompress_payload_lem,
  WireObjectKind, GitFrame,
}
use jj_mesh.Repo.Transfer.Batch.{Codecs, RoundTrips}
use jj_mesh.Repo.Transfer.Serve.Phase.{git_phase_frame, send_frame}
use jj_mesh.Repo.Transfer.Loose.Defs.{
  GitStore, receive_git_frame, loose_rounds, RawObject, Gix, LooseReceiving,
}
use jj_mesh.Repo.Transfer.Closure.Defs.{Emitted}
use jj_mesh.Repo.Transfer.Objects.Written.{push_object-Flushed, IsSound, Carries}

-- An emitted object that the server has, and that the fetcher can take
pub record IsServed (gix : Gix) (codecs : Codecs) (server : GitStore)
    (e : CommitId × WireObjectKind) : Type 0 where
  pub content : Bytes
  pub stored : get e.0 server ≡ some (e.1, content)
  pub hashed : text_eq (gix.compute_hash e.1 content) e.0 ≡ true
  pub id_size : length e.0 ≡ gix.hash_len
  pub size : length content ≤ max_git_object_size
  pub frame_size :
      length (codecs.encode_git_frame (GitFrame.object_frame e.0 e.1 (codecs.compress content)))
      ≤ max_git_frame_size

abbrev pub emitted_ids : Emitted → List CommitId
emitted_ids [] = []
emitted_ids (e ∷ es) = e.0 ∷ emitted_ids es

module _ (gix : Gix) (codecs : Codecs) (trips : RoundTrips codecs) where
  pub record IsGitSent (frame : GitFrame) : Type 0 where
    pub bytes : Bytes
    pub some_bytes : 0 < length bytes
    pub sends : send_frame (git_phase_frame codecs) frame ≡ ok bytes
    pub reads :
        (rest : Bytes)
        → read_message codecs.decode_git_frame max_git_frame_size (bytes ++ rest) ≡ ok (frame, rest)

  pub git_sent_lem :
      (frame : GitFrame)
      → length (codecs.encode_git_frame frame) ≤ max_git_frame_size
      → IsGitSent frame
  unfolding send_frame write_message
  git_sent_lem frame h =
      let encoded = codecs.encode_git_frame frame in
      let written : Bytes = to_le_bytes (length encoded) ++ encoded in
      let e : write_message codecs.encode_git_frame max_git_frame_size frame ≡ some (ok written) =
        ground arith in
      record {
        bytes = written;
        some_bytes = omega arith;
        sends = rw e refl;
        reads = λ rest.
            read-write_message codecs.encode_git_frame codecs.decode_git_frame max_git_frame_size
              frame written rest (trips.decode-git_frame frame) e;
      }

  payload_of :
      (content : Bytes)
      → length content ≤ max_git_object_size
      → decompress_payload codecs.decoder (codecs.compress content) max_git_object_size ≡ ok content
  payload_of content h =
      let d =
        (decompress_payload_lem codecs.decoder (codecs.compress content) max_git_object_size
            (omega arith)).1
          content true (trips.decoder-compress content) in
      (d.0) refl h

  -- Where the loop stands after some frames
  pub record Passed (fuel : ℕ) (git : GitStore) (r : LooseReceiving) (stream rest : Bytes)
      (more : List CommitId) : Type 0 where
    pub left : ℕ
    pub later : GitStore
    pub s : LooseReceiving
    pub passes :
        loose_rounds gix codecs fuel git r stream ≡ loose_rounds gix codecs left later s rest
    pub enough : length rest < left
    pub goes : Carries gix codecs git r more (r.total + length more) later s

  pub Passed-object :
      (server : GitStore) (e : CommitId × WireObjectKind) (v : IsServed gix codecs server e)
      (fuel : ℕ) (git : GitStore) (r : LooseReceiving) (rest : Bytes)
      (i : IsGitSent (GitFrame.object_frame e.0 e.1 (codecs.compress v.content)))
      → All (IsSound gix codecs) r.pending
      → All (IsSound gix codecs) r.chunk
      → length (i.bytes ++ rest) < fuel
      → Passed fuel git r (i.bytes ++ rest) rest (e.0 ∷ [])
  unfolding loose_rounds receive_git_frame
  Passed-object server e v zero git r rest i p c h = absurd (omega arith)
  Passed-object server e v (suc fuel) git r rest i p c h =
      let o : RawObject = record { id = e.0; kind = e.1; payload = codecs.compress v.content } in
      let sound : IsSound gix codecs o = record {
        content = v.content;
        decompresses = payload_of v.content v.size;
        hashes = v.hashed;
      } in
      let f = push_object-Flushed gix codecs git r o p c sound in
      let sized : (length e.0 == gix.hash_len) ≡ true = ground (arith, v.id_size) in
      record {
        left = fuel;
        later = f.later;
        s = f.s;
        passes = rw (i.reads rest, sized, f.flushed) refl;
        enough = omega (arith, i.some_bytes, length-append i.bytes rest);
        goes = f.goes;
      }
