-- ===== src/Repo/Transfer/Objects/Delivered.antt =====
-- The lemmas on `serve_git_loose` and the rounds of the fetcher that take its frames.
use mathlib.Core.List.{append_assoc}
use jj_mesh.Prelude.{
  ok, contains_key, nat_ord, bool_ord, pair_ord, list_ord, option_ord, reverse_ord, length, All, ℕ,
  zero, suc, ◌+◌, ◌≤◌, ◌<◌, ◌≡◌, refl, ap, ◌∙◌, true, ◌||◌, none, List, [], ◌∷◌, ◌++◌, arith,
}
use jj_mesh.Repo.Codec.Messages.{CommitId}
use jj_mesh.Repo.Codec.Ids.{has_id}
use jj_mesh.Repo.Store.Defs.{Bytes}
use jj_mesh.Net.Fetch.{max_git_frame_size, GitFrame}
use jj_mesh.Repo.Transfer.Batch.{Codecs, RoundTrips}
use jj_mesh.Repo.Transfer.Serve.Phase.{git_phase_frame, send_frames, serve_phase}
use jj_mesh.Repo.Transfer.Loose.Defs.{
  GitStore, start_loose, finish_loose, receive_git_frame, loose_rounds, receive_git_loose, Gix,
  LooseReceiving,
}
use jj_mesh.Repo.Transfer.Loose.Verified.{receive_git_loose_lem, Verified}
use jj_mesh.Repo.Transfer.Closure.Defs.{Emitted}
use jj_mesh.Repo.Transfer.Objects.Defs.{produce_objects, serve_git_loose, GitMessages}
use jj_mesh.Repo.Transfer.Objects.Written.{finish_loose-Finished, IsSound, Finished}
use jj_mesh.Repo.Transfer.Objects.Sent.{
  emitted_ids, git_sent_lem, Passed-object, IsServed, IsGitSent, Passed,
}

module _ (gix : Gix) (codecs : Codecs) (trips : RoundTrips codecs) where
  -- The frames of some objects
  pub record Sends (server : GitStore) (emitted : Emitted) (frames : List GitFrame) : Type 0 where
    pub bytes : Bytes
    pub sends : send_frames (git_phase_frame codecs) frames ≡ ok bytes
    pub passes :
        (fuel : ℕ) (git : GitStore) (r : LooseReceiving) (rest : Bytes)
        → All (IsSound gix codecs) r.pending
        → All (IsSound gix codecs) r.chunk
        → length (bytes ++ rest) < fuel
        → Passed gix codecs trips fuel git r (bytes ++ rest) rest (emitted_ids emitted)

  module _ (messages : GitMessages) (server : GitStore) where
    Sends-objects :
        (emitted : Emitted)
        → All (IsServed gix codecs server) emitted
        → Sends server emitted (produce_objects codecs messages server emitted none).frames
    unfolding produce_objects send_frames
    Sends-objects [] a = record {
      bytes = [];
      sends = refl;
      passes = λ fuel git r rest p c h. record {
        left = fuel;
        later = git;
        s = r;
        passes = refl;
        enough = h;
        goes = record {
          pending = p;
          chunk = c;
          counted = omega arith;
          holds = λ x k. ground arith;
        };
      };
    }
    Sends-objects (e ∷ es) a =
        let v = a.0 in
        let i =
          git_sent_lem gix codecs trips (GitFrame.object_frame e.0 e.1 (codecs.compress v.content))
            v.frame_size in
        let later = Sends-objects es (a.1) in
        record {
          bytes = i.bytes ++ later.bytes;
          sends = rw (v.stored, i.sends, later.sends) refl;
          passes = λ fuel git r rest p c h.
              let joined = append_assoc i.bytes later.bytes rest in
              let one =
                Passed-object gix codecs trips server e v fuel git r (later.bytes ++ rest) i p c
                  (omega (arith, ap length joined)) in
              let all_later =
                later.passes one.left one.later one.s rest one.goes.pending one.goes.chunk
                  one.enough in
              record {
                left = all_later.left;
                later = all_later.later;
                s = all_later.s;
                passes =
                    ap (loose_rounds gix codecs fuel git r) joined
                    ∙ (one.passes ∙ all_later.passes);
                enough = all_later.enough;
                goes = record {
                  pending = all_later.goes.pending;
                  chunk = all_later.goes.chunk;
                  counted = omega (arith, all_later.goes.counted, one.goes.counted);
                  holds = λ x k. ground (arith, one.goes.holds x, all_later.goes.holds x);
                };
              };
        }

no_failure :
    (codecs : Codecs) (messages : GitMessages) (server : GitStore) (emitted : Emitted) (gix : Gix)
    → All (IsServed gix codecs server) emitted
    → (produce_objects codecs messages server emitted none).failure ≡ none
unfolding produce_objects
no_failure codecs messages server [] gix a = refl
no_failure codecs messages server (e ∷ es) gix a =
    rw (a.0).stored (no_failure codecs messages server es gix (a.1))

length-emitted_ids : (emitted : Emitted) → length (emitted_ids emitted) ≡ length emitted
length-emitted_ids [] = refl
length-emitted_ids (e ∷ es) = ap suc (length-emitted_ids es)

-- What the fetcher gets of the objects
pub record IsDelivered (gix : Gix) (codecs : Codecs) (git : GitStore) (emitted : Emitted)
    (stream : Bytes) : Type 0 where
  pub last : GitStore
  pub received : receive_git_loose gix codecs git stream ≡ ok (last, length emitted)
  pub holds :
      (x : CommitId)
      → (contains_key x git || has_id x (emitted_ids emitted)) ≡ true
      → contains_key x last ≡ true
  pub verified : Verified gix git last

module _ (gix : Gix) (codecs : Codecs) (trips : RoundTrips codecs) where
  done_round :
      (fuel : ℕ) (git : GitStore) (r : LooseReceiving) (rest : Bytes)
      (i : IsGitSent gix codecs trips GitFrame.git_done)
      (f : Finished gix codecs git r (finish_loose gix codecs git r))
      → length (i.bytes ++ rest) < fuel
      → loose_rounds gix codecs fuel git r (i.bytes ++ rest) ≡ ok (f.last, r.total)
  unfolding loose_rounds receive_git_frame
  done_round zero git r rest i f h = absurd (omega arith)
  done_round (suc fuel) git r rest i f h = rw (i.reads rest, f.finished) refl

  delivered :
      (messages : GitMessages) (server git : GitStore) (emitted : Emitted) (rest : Bytes)
      (s : Sends gix codecs trips server emitted
        (produce_objects codecs messages server emitted none).frames)
      (i : IsGitSent gix codecs trips GitFrame.git_done)
      → IsDelivered gix codecs git emitted ((s.bytes ++ i.bytes) ++ rest)
  unfolding receive_git_loose
  delivered messages server git emitted rest s i =
      let stream = (s.bytes ++ i.bytes) ++ rest in
      let joined = append_assoc s.bytes i.bytes rest in
      let p =
        s.passes (length stream + 1) git start_loose (i.bytes ++ rest) tt tt
          (omega (arith, ap length joined)) in
      let f = finish_loose-Finished gix codecs p.later p.s p.goes.pending p.goes.chunk in
      let e : receive_git_loose gix codecs git stream ≡ ok (f.last, p.s.total) =
        ap (loose_rounds gix codecs (length stream + 1) git start_loose) joined
        ∙ (p.passes ∙ done_round p.left p.later p.s rest i f p.enough) in
      let counted : p.s.total ≡ length emitted =
        omega (arith, p.goes.counted, length-emitted_ids emitted) in
      let received : receive_git_loose gix codecs git stream ≡ ok (f.last, length emitted) =
        e ∙ ap (λ n. ok (f.last, n)) counted in
      record {
        last = f.last;
        received = received;
        holds = λ x h. f.holds x (p.goes.holds x (ground arith));
        verified = receive_git_loose_lem gix codecs git f.last stream (length emitted) received;
      }

-- When the walk of a server ends without failure, and the server has every object that the walk emits, each with
-- the hash that its id says, and none is too large, then the loose Git phase is served whole, and whatever
-- follows it on the stream, the fetcher receives as many objects as were emitted, ends with all of them and all
-- that it had, and what it adds is verified.
pub served_objects_received :
    (gix : Gix) (codecs : Codecs) (trips : RoundTrips codecs) (messages : GitMessages)
    (server git : GitStore) (emitted : Emitted) (rest : Bytes)
    → length (codecs.encode_git_frame GitFrame.git_done) ≤ max_git_frame_size
    → All (IsServed gix codecs server) emitted
    → (bytes : Bytes) × (serve_git_loose codecs messages server
          (record { emitted = emitted; failure = none })
        ≡ ok (bytes, true))
      × IsDelivered gix codecs git emitted (bytes ++ rest)
unfolding serve_git_loose serve_phase
served_objects_received gix codecs trips messages server git emitted rest h a =
    let s = Sends-objects gix codecs trips messages server emitted a in
    let i = git_sent_lem gix codecs trips GitFrame.git_done h in
    (
      s.bytes ++ i.bytes,
      rw (no_failure codecs messages server emitted gix a, s.sends, i.sends) refl,
      delivered gix codecs trips messages server git emitted rest s i,
    )
