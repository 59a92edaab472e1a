-- ===== src/Repo/Transfer/Loose/Verified.antt =====
-- The lemmas on `write_object`, `write_git_chunk` and `receive_git_loose`.
use mathlib.Core.Path.{subst}
use mathlib.Core.Logic.{⊎_elim}
use jj_mesh.Prelude.{
  ensure, >>=-eq-ok, ensure-eq-ok, ok, total, get, contains_key, insert, get-insert, nat_ord,
  bool_ord, pair_ord, list_ord, option_ord, reverse_ord, ◌==◌, Bool-cases, length, ℕ, zero, suc,
  ◌+◌, ◌≡◌, ◌⊎◌, inl, inr, false, some, List, [], ◌∷◌, arith,
}
use jj_mesh.Config.Machine.{text_eq, text_eq_sound}
use jj_mesh.Repo.Codec.Messages.{CommitId}
use jj_mesh.Repo.Store.Defs.{Bytes}
use jj_mesh.Net.Wire.{read_message}
use jj_mesh.Net.Fetch.{
  max_git_frame_size, max_git_object_size, decompress_payload, WireObjectKind, GitFrame,
}
use jj_mesh.Repo.Transfer.Batch.{
  or_else, wire_failure, payload_failure, bad_object_id, not_its_content, Codecs,
}
use jj_mesh.Repo.Transfer.Loose.Defs.{
  GitStore, push_object, is_full, start_loose, write_object, write_git_chunk, flush, finish_loose,
  receive_git_frame, loose_rounds, receive_git_loose, RawObject, Gix, LooseReceiving,
}

module _ (gix : Gix) where
  -- Every object of `after` is one of `before`, or has the id that is its hash; those of `before` are all there.
  pub record Verified (before after : GitStore) : Type 0 where
    pub origin :
        (id : CommitId) (kind : WireObjectKind) (content : Bytes)
        → get id after ≡ some (kind, content)
        → (get id before ≡ some (kind, content)) ⊎ (gix.compute_hash kind content ≡ id)
    pub kept :
        (id : CommitId) (o : WireObjectKind × Bytes)
        → get id before ≡ some o
        → get id after ≡ some o

  Verified-refl : (git : GitStore) → Verified git git
  Verified-refl git = record { origin = λ id kind content h. inl h; kept = λ id o h. h }

  Verified-trans : (a b c : GitStore) → Verified a b → Verified b c → Verified a c
  Verified-trans a b c v w = record {
    origin =
        λ id kind content h. ⊎_elim (v.origin id kind content) inr (w.origin id kind content h);
    kept = λ id o h. w.kept id o (v.kept id o h);
  }

  inserted :
      (git : GitStore) (id : CommitId) (kind : WireObjectKind) (content : Bytes)
      → gix.compute_hash kind content ≡ id
      → contains_key id git ≡ false
      → Verified git (insert id (kind, content) git)
  inserted git id kind content same new = record {
    origin = λ x k c h. elim (Bool-cases (text_eq id x)) [
      | inl here ↦ inr (
          let there = get-insert x id (kind, content) git in
          ground (arith, same, text_eq_sound id x here))
      | inr other ↦ inl (ground (arith, get-insert x id (kind, content) git))
    ];
    kept = λ x o h. ground (arith, get-insert x id (kind, content) git, text_eq_sound id x);
  }

  module _ (codecs : Codecs) where
    write_object_lem :
        (git next : GitStore) (o : RawObject)
        → write_object gix codecs git o ≡ ok next
        → Verified git next
    unfolding write_object
    write_object_lem git next o h =
        let (content, _, h₁) =
          >>=-eq-ok
            (or_else payload_failure
              (decompress_payload codecs.decoder o.payload max_git_object_size))
            _ h in
        let (_, hashed, h₂) =
          >>=-eq-ok (ensure (text_eq (gix.compute_hash o.kind content) o.id) not_its_content) _
            h₁ in
        let same =
          text_eq_sound (gix.compute_hash o.kind content) o.id (
            ensure-eq-ok (text_eq (gix.compute_hash o.kind content) o.id) not_its_content hashed) in
        elim (Bool-cases (contains_key o.id git)) [
          | inl old ↦ let e : git ≡ next = ground arith in rw (← e) (Verified-refl git)
          | inr new ↦
              let e : insert o.id (o.kind, content) git ≡ next = ground arith in
              rw (← e) (inserted git o.id o.kind content same new)
        ]

    write_git_chunk_lem :
        (git next : GitStore) (os : List RawObject)
        → write_git_chunk gix codecs git os ≡ ok next
        → Verified git next
    unfolding write_git_chunk
    write_git_chunk_lem git next [] h =
        let e : git ≡ next = ground arith in rw (← e) (Verified-refl git)
    write_git_chunk_lem git next (o ∷ os) h =
        let (mid, e, rest) = >>=-eq-ok (write_object gix codecs git o) _ h in
        Verified-trans git mid next (write_object_lem git mid o e)
          (write_git_chunk_lem mid next os rest)

    flush_lem :
        (git next : GitStore) (r s : LooseReceiving)
        → flush gix codecs git r ≡ ok (next, s)
        → Verified git next
    flush_lem git next r s h = elim (Bool-cases (is_full r)) [
      | inl full ↦
          let (mid, e, made) =
            >>=-eq-ok (write_git_chunk gix codecs git r.pending) _ (rw (full, flush) at h) in
          let same : mid ≡ next = ground arith in
          rw (← same) (write_git_chunk_lem git mid r.pending e)
      | inr room ↦
          let same : git ≡ next = ground (arith, rw (room, flush) at h) in
          rw (← same) (Verified-refl git)
    ]

    finish_loose_lem :
        (git last : GitStore) (r : LooseReceiving) (total : ℕ)
        → finish_loose gix codecs git r ≡ ok (last, total)
        → Verified git last
    finish_loose_lem git last r total h =
        let (mid, e, h₁) = >>=-eq-ok (write_git_chunk gix codecs git r.pending) _ h in
        let (final, f, made) = >>=-eq-ok (write_git_chunk gix codecs mid r.chunk) _ h₁ in
        let same : final ≡ last = ground arith in
        rw (← same) (
          Verified-trans git mid final (write_git_chunk_lem git mid r.pending e)
            (write_git_chunk_lem mid final r.chunk f))

    abbrev StepVerifies : GitStore → (GitStore × LooseReceiving) ⊎ (GitStore × ℕ) → Type 0
    StepVerifies git (inl more) = Verified git (more.0)
    StepVerifies git (inr last) = Verified git (last.0)

    frame_lem :
        (git : GitStore) (r : LooseReceiving) (frame : GitFrame)
        (next : (GitStore × LooseReceiving) ⊎ (GitStore × ℕ))
        → receive_git_frame gix codecs git r frame ≡ ok next
        → StepVerifies git next
    unfolding receive_git_frame
    frame_lem git r (GitFrame.object_frame id kind payload) next h =
        let (_, _, h₁) = >>=-eq-ok (ensure (length id == gix.hash_len) bad_object_id) _ h in
        let grown = push_object r (record { id = id; kind = kind; payload = payload }) in
        let ((git', s), e, made) = >>=-eq-ok (flush gix codecs git grown) _ h₁ in
        let same : inl (git', s) ≡ next = ground arith in
        subst (StepVerifies git) (same) (flush_lem git git' grown s e)
    frame_lem git r GitFrame.git_done next h =
        let ((git', total), e, made) = >>=-eq-ok (finish_loose gix codecs git r) _ h in
        let same : inr (git', total) ≡ next = ground arith in
        subst (StepVerifies git) (same) (finish_loose_lem git git' r total e)
    frame_lem git r (GitFrame.pack_frame chunk) next h = cc
    frame_lem git r (GitFrame.git_error message) next h = cc

    step_lem :
        (fuel : ℕ) (git last : GitStore) (stream : Bytes)
        (next : (GitStore × LooseReceiving) ⊎ (GitStore × ℕ)) (total : ℕ)
        → ((mid end : GitStore) (s : LooseReceiving) (rest : Bytes) (n : ℕ)
            → loose_rounds gix codecs fuel mid s rest ≡ ok (end, n)
            → Verified mid end)
        → StepVerifies git next
        → elim next [
          | inl more ↦ loose_rounds gix codecs fuel (more.0) (more.1) stream
          | inr done ↦ ok done
        ]
          ≡ ok (last, total)
        → Verified git last
    step_lem fuel git last stream (inl (mid, s)) total ih v h =
        Verified-trans git mid last v (ih mid last s stream total h)
    step_lem fuel git last stream (inr (end, n)) total ih v h =
        let same : end ≡ last = ground arith in rw same at v

    rounds_lem :
        (fuel : ℕ) (git last : GitStore) (r : LooseReceiving) (stream : Bytes) (total : ℕ)
        → loose_rounds gix codecs fuel git r stream ≡ ok (last, total)
        → Verified git last
    unfolding loose_rounds
    rounds_lem zero git last r stream total h = cc
    rounds_lem (suc fuel) git last r stream total h =
        let (taken, _, h₁) =
          >>=-eq-ok
            (or_else wire_failure (read_message codecs.decode_git_frame max_git_frame_size stream))
            _ h in
        let (next, e, h₂) = >>=-eq-ok (receive_git_frame gix codecs git r taken.0) _ h₁ in
        step_lem fuel git last taken.1 next total (rounds_lem fuel) (frame_lem git r taken.0 next e)
          h₂

-- Whatever the frames of a peer, a Git phase in the loose format that succeeds keeps every object that was
-- stored, and all that it adds stands under the id that is the hash of its content.
pub receive_git_loose_lem :
    (gix : Gix) (codecs : Codecs) (git last : GitStore) (stream : Bytes) (total : ℕ)
    → receive_git_loose gix codecs git stream ≡ ok (last, total)
    → Verified gix git last
unfolding receive_git_loose
receive_git_loose_lem gix codecs git last stream total h =
    rounds_lem gix codecs (length stream + 1) git last start_loose stream total h
