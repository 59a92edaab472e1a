-- ===== src/Repo/Transfer/Objects/Written.antt =====
-- The lemmas on `write_git_chunk` and `flush` for objects that have the hash of their content.
use jj_mesh.Prelude.{
  Result, ok, contains_key, insert, get-insert, nat_ord, bool_ord, pair_ord, list_ord, option_ord,
  reverse_ord, Bool-cases, All, ℕ, ◌+◌, ◌≡◌, refl, inl, inr, Bool, true, ◌||◌, List, [], ◌∷◌, ◌++◌,
  arith,
}
use jj_mesh.Config.Machine.{text_eq, text_eq_sound}
use jj_mesh.Repo.Codec.Messages.{CommitId}
use jj_mesh.Repo.Codec.Ids.{has_id}
use jj_mesh.Repo.Store.Defs.{Bytes}
use jj_mesh.Net.Fetch.{max_git_object_size, decompress_payload}
use jj_mesh.Repo.Transfer.Batch.{TransferError, Codecs}
use jj_mesh.Repo.Transfer.Loose.Defs.{
  GitStore, push_object, is_full, write_object, write_git_chunk, flush, finish_loose, RawObject,
  Gix, LooseReceiving,
}

abbrev pub raw_ids : List RawObject → List CommitId
raw_ids [] = []
raw_ids (o ∷ os) = o.id ∷ raw_ids os

raw_ids-concat :
    (x : CommitId) (os : List RawObject) (o : RawObject)
    → has_id x (raw_ids (os ++ o ∷ [])) ≡ (has_id x (raw_ids os) || text_eq x o.id)
raw_ids-concat x [] o = ground arith
raw_ids-concat x (p ∷ os) o = ground (arith, raw_ids-concat x os o)

module _ (gix : Gix) (codecs : Codecs) where
  -- An object whose payload holds what its id says
  pub record IsSound (o : RawObject) : Type 0 where
    pub content : Bytes
    pub decompresses : decompress_payload codecs.decoder o.payload max_git_object_size ≡ ok content
    pub hashes : text_eq (gix.compute_hash o.kind content) o.id ≡ true

  All-concat :
      (os : List RawObject) (o : RawObject)
      → All IsSound os
      → IsSound o
      → All IsSound (os ++ o ∷ [])
  All-concat [] o a s = (s, tt)
  All-concat (p ∷ os) o a s = (a.0, All-concat os o (a.1) s)

  -- A store with all of `git`, and with some objects
  pub record Wrote (git : GitStore) (os : List RawObject) (result : Result TransferError GitStore)
      : Type 0 where
    pub next : GitStore
    pub written : result ≡ ok next
    pub holds :
        (x : CommitId)
        → (contains_key x git || has_id x (raw_ids os)) ≡ true
        → contains_key x next ≡ true

  write_object-Wrote :
      (git : GitStore) (o : RawObject)
      → IsSound o
      → Wrote git (o ∷ []) (write_object gix codecs git o)
  unfolding write_object
  write_object-Wrote git o s = elim (Bool-cases (contains_key o.id git)) [
    | inl old ↦ record {
      next = git;
      written = rw (s.decompresses, s.hashes, old) refl;
      holds = λ x h. ground (arith, text_eq_sound x o.id);
    }
    | inr new ↦ record {
      next = insert o.id (o.kind, s.content) git;
      written = rw (s.decompresses, s.hashes, new) refl;
      holds =
          λ x h. ground (arith, get-insert x o.id (o.kind, s.content) git, text_eq_sound x o.id);
    }
  ]

  pub write_git_chunk-Wrote :
      (git : GitStore) (os : List RawObject)
      → All IsSound os
      → Wrote git os (write_git_chunk gix codecs git os)
  unfolding write_git_chunk
  write_git_chunk-Wrote git [] a = record {
    next = git;
    written = refl;
    holds = λ x h. ground arith;
  }
  write_git_chunk-Wrote git (o ∷ os) a =
      let one = write_object-Wrote git o (a.0) in
      let more = write_git_chunk-Wrote one.next os (a.1) in
      record {
        next = more.next;
        written = rw one.written more.written;
        holds = λ x h. ground (arith, one.holds x, more.holds x);
      }

  -- What the store has, or gets from the pending write and the chunk
  abbrev pub has_now : GitStore → LooseReceiving → CommitId → Bool
  has_now git r x =
      contains_key x git || (has_id x (raw_ids r.pending) || has_id x (raw_ids r.chunk))

  -- A receiver whose objects are sound, with the objects of an earlier one, the ids `more`, and a total
  pub record Carries (git : GitStore) (r : LooseReceiving) (more : List CommitId) (total : ℕ)
      (later : GitStore) (s : LooseReceiving) : Type 0 where
    pub pending : All IsSound s.pending
    pub chunk : All IsSound s.chunk
    pub counted : s.total ≡ total
    pub holds :
        (x : CommitId) → (has_now git r x || has_id x more) ≡ true → has_now later s x ≡ true

  pub record Flushed (git : GitStore) (r : LooseReceiving) (more : List CommitId) (total : ℕ)
      (result : Result TransferError (GitStore × LooseReceiving)) : Type 0 where
    pub later : GitStore
    pub s : LooseReceiving
    pub flushed : result ≡ ok (later, s)
    pub goes : Carries git r more total later s

  pub push_object-Flushed :
      (git : GitStore) (r : LooseReceiving) (o : RawObject)
      → All IsSound r.pending
      → All IsSound r.chunk
      → IsSound o
      → Flushed git r (o.id ∷ []) (r.total + 1) (flush gix codecs git (push_object r o))
  push_object-Flushed git r o p c s =
      let grown = push_object r o in
      let a = All-concat r.chunk o c s in
      elim (Bool-cases (is_full grown)) [
        | inl full ↦
            let w = write_git_chunk-Wrote git r.pending p in
            record {
              later = w.next;
              s = record grown { pending = grown.chunk; chunk = []; chunk_bytes = 0 };
              flushed = rw (full, flush, w.written) refl;
              goes = record {
                pending = a;
                chunk = tt;
                counted = refl;
                holds = λ x h. ground (arith, w.holds x, raw_ids-concat x r.chunk o);
              };
            }
        | inr room ↦ record {
          later = git;
          s = grown;
          flushed = rw (room, flush) refl;
          goes = record {
            pending = p;
            chunk = a;
            counted = refl;
            holds = λ x h. ground (arith, raw_ids-concat x r.chunk o);
          };
        }
      ]

  -- The end of the phase
  pub record Finished (git : GitStore) (r : LooseReceiving)
      (result : Result TransferError (GitStore × ℕ)) : Type 0 where
    pub last : GitStore
    pub finished : result ≡ ok (last, r.total)
    pub holds : (x : CommitId) → has_now git r x ≡ true → contains_key x last ≡ true

  pub finish_loose-Finished :
      (git : GitStore) (r : LooseReceiving)
      → All IsSound r.pending
      → All IsSound r.chunk
      → Finished git r (finish_loose gix codecs git r)
  finish_loose-Finished git r p c =
      let first = write_git_chunk-Wrote git r.pending p in
      let second = write_git_chunk-Wrote first.next r.chunk c in
      record {
        last = second.next;
        finished = rw (first.written, second.written) refl;
        holds = λ x h. ground (arith, first.holds x, second.holds x);
      }
