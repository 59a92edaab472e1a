-- ===== src/Repo/Transfer/Loose/Fuel.antt =====
-- The fuel of `loose_rounds`.
use jj_mesh.Prelude.{
  ◌>>=◌, ensure, Result-cases, Result, ok, err, nat_ord, bool_ord, pair_ord, list_ord, option_ord,
  reverse_ord, ◌==◌, Bool-cases, length, ℕ, zero, suc, ◌+◌, ◌<◌, ◌≡◌, refl, ◌≢◌, ◌⊎◌, inl, inr,
  Bool, true, false, List, [], ◌∷◌, arith,
}
use jj_mesh.Config.Machine.{text_eq}
use jj_mesh.Repo.Store.Defs.{Bytes}
use jj_mesh.Net.Wire.{read_message, read_message_shorter}
use jj_mesh.Net.Fetch.{max_git_frame_size, max_git_object_size, decompress_payload, GitFrame}
use jj_mesh.Repo.Transfer.Batch.{
  or_else, TransferError, wire_failure, payload_failure, bad_object_id, not_its_content,
  out_of_fuel, Codecs,
}
use jj_mesh.Repo.Transfer.Receive.Preserve.{or_else-eq-ok}
use jj_mesh.Repo.Transfer.Serve.Ops.{failed}
use jj_mesh.Repo.Transfer.Loose.Defs.{
  GitStore, push_object, is_full, start_loose, write_object, write_git_chunk, flush, finish_loose,
  receive_git_frame, loose_rounds, receive_git_loose, RawObject, Gix, LooseReceiving,
}

module _ (gix : Gix) (codecs : Codecs) where
  abbrev After : Type 0
  After = (GitStore × LooseReceiving) ⊎ (GitStore × ℕ)

  -- What a round does with the rest of the stream
  abbrev go_on : ℕ → Bytes → After → Result TransferError (GitStore × ℕ)
  go_on fuel stream (inl more) = loose_rounds gix codecs fuel (more.0) (more.1) stream
  go_on fuel stream (inr last) = ok last

  same_after :
      (f g : ℕ) (stream : Bytes) (next : After)
      → ((git : GitStore) (r : LooseReceiving)
          → loose_rounds gix codecs f git r stream ≡ loose_rounds gix codecs g git r stream)
      → go_on f stream next ≡ go_on g stream next
  same_after f g stream (inl more) ih = ih (more.0) (more.1)
  same_after f g stream (inr last) ih = refl

  -- What the loop of the loose format does is the same with any fuel above the length of the stream.
  pub loose_rounds_enough :
      (f g : ℕ) (git : GitStore) (r : LooseReceiving) (stream : Bytes)
      → length stream < f
      → length stream < g
      → loose_rounds gix codecs f git r stream ≡ loose_rounds gix codecs g git r stream
  unfolding loose_rounds
  loose_rounds_enough zero g git r stream h k = absurd (omega arith)
  loose_rounds_enough (suc f) zero git r stream h k = absurd (omega arith)
  loose_rounds_enough (suc f) (suc g) git r stream h k =
      elim (Result-cases (read_message codecs.decode_git_frame max_git_frame_size stream)) [
        | inr (e, failed) ↦ rw failed refl
        | inl ((frame, rest), taken) ↦
            let less =
              read_message_shorter codecs.decode_git_frame max_git_frame_size stream rest frame
                taken in
            elim (Result-cases (receive_git_frame gix codecs git r frame)) [
              | inr (e, failed) ↦ rw (taken, failed) refl
              | inl (next, done) ↦
                  rw (taken, done)
                    (same_after f g rest next
                      (λ git' s. loose_rounds_enough f g git' s rest (omega arith) (omega arith)))
            ]
      ]

-- The failure is that of a loop whose fuel is spent.
abbrev pub is_spent : TransferError → Bool
is_spent out_of_fuel = true
is_spent _ = false

abbrev Lasts : {A : Type 0} → Result TransferError A → Type 0
Lasts (ok a) = Unit
Lasts (err e) = is_spent e ≡ false

Lasts-bind :
    {A B : Type 0} (m : Result TransferError A) (next : A → Result TransferError B)
    → Lasts m
    → ((a : A) → m ≡ ok a → Lasts (next a))
    → Lasts (m >>= next)
Lasts-bind (ok a) next h k = k a refl
Lasts-bind (err e) next h k = h

Lasts-ensure : (b : Bool) (e : TransferError) → is_spent e ≡ false → Lasts (ensure b e)
Lasts-ensure true e h = tt
Lasts-ensure false e h = h

Lasts-or_else :
    {E A : Type 0} (f : E → TransferError) (r : Result E A)
    → ((e : E) → is_spent (f e) ≡ false)
    → Lasts (or_else f r)
Lasts-or_else f (ok a) h = tt
Lasts-or_else f (err e) h = h e

module _ (gix : Gix) (codecs : Codecs) where
  Lasts-object : (git : GitStore) (o : RawObject) → Lasts (write_object gix codecs git o)
  unfolding write_object
  Lasts-object git o =
      Lasts-bind
        (or_else payload_failure (decompress_payload codecs.decoder o.payload max_git_object_size))
        _ (Lasts-or_else payload_failure _ (λ e. refl))
        (λ content d.
          Lasts-bind (ensure (text_eq (gix.compute_hash o.kind content) o.id) not_its_content) _
            (Lasts-ensure _ not_its_content refl) (λ u v. tt))

  Lasts-chunk : (git : GitStore) (os : List RawObject) → Lasts (write_git_chunk gix codecs git os)
  unfolding write_git_chunk
  Lasts-chunk git [] = tt
  Lasts-chunk git (o ∷ os) =
      Lasts-bind (write_object gix codecs git o) _ (Lasts-object git o)
        (λ next e. Lasts-chunk next os)

  Lasts-flush : (git : GitStore) (r : LooseReceiving) → Lasts (flush gix codecs git r)
  Lasts-flush git r = elim (Bool-cases (is_full r)) [
    | inl full ↦
        rw (flush, full)
          (Lasts-bind (write_git_chunk gix codecs git r.pending) _ (Lasts-chunk git r.pending)
            (λ n e. tt))
    | inr room ↦ rw (flush, room) tt
  ]

  Lasts-frame :
      (git : GitStore) (r : LooseReceiving) (frame : GitFrame)
      → Lasts (receive_git_frame gix codecs git r frame)
  unfolding receive_git_frame
  Lasts-frame git r (GitFrame.object_frame id kind payload) =
      Lasts-bind (ensure (length id == gix.hash_len) bad_object_id) _
        (Lasts-ensure _ bad_object_id refl)
        (λ u v.
          Lasts-bind
            (flush gix codecs git
              (push_object r (record { id = id; kind = kind; payload = payload })))
            _ (Lasts-flush git (push_object r (record { id = id; kind = kind; payload = payload })))
            (λ n e. tt))
  Lasts-frame git r GitFrame.git_done =
      Lasts-bind (finish_loose gix codecs git r) _
        (Lasts-bind (write_git_chunk gix codecs git r.pending) _ (Lasts-chunk git r.pending) (λ n e.
          Lasts-bind (write_git_chunk gix codecs n r.chunk) _ (Lasts-chunk n r.chunk) (λ m f. tt)))
        (λ n e. tt)
  Lasts-frame git r (GitFrame.pack_frame chunk) = refl
  Lasts-frame git r (GitFrame.git_error message) = refl

  Lasts-after :
      (fuel : ℕ) (stream : Bytes) (next : After gix codecs)
      → ((git : GitStore) (r : LooseReceiving) → Lasts (loose_rounds gix codecs fuel git r stream))
      → Lasts (go_on gix codecs fuel stream next)
  Lasts-after fuel stream (inl more) ih = ih (more.0) (more.1)
  Lasts-after fuel stream (inr last) ih = tt

  Lasts-rounds :
      (fuel : ℕ) (git : GitStore) (r : LooseReceiving) (stream : Bytes)
      → length stream < fuel
      → Lasts (loose_rounds gix codecs fuel git r stream)
  unfolding loose_rounds
  Lasts-rounds zero git r stream h = absurd (omega arith)
  Lasts-rounds (suc fuel) git r stream h =
      Lasts-bind
        (or_else wire_failure (read_message codecs.decode_git_frame max_git_frame_size stream)) _
        (Lasts-or_else wire_failure _ (λ e. refl))
        (λ taken e.
          let less =
            read_message_shorter codecs.decode_git_frame max_git_frame_size stream taken.1 taken.0 (
              or_else-eq-ok wire_failure
                (read_message codecs.decode_git_frame max_git_frame_size stream) taken e) in
          Lasts-bind (receive_git_frame gix codecs git r taken.0) _ (Lasts-frame git r taken.0)
            (λ next f.
              Lasts-after fuel taken.1 next
                (λ git' s. Lasts-rounds fuel git' s taken.1 (omega arith))))

spent_not : {A : Type 0} (r : Result TransferError A) → Lasts r → r ≢ err out_of_fuel
spent_not (ok a) h e = cc
spent_not (err e) h same = ground arith

-- The loose Git phase ends on every stream: it is done, or fails with a failure of the source, and never for
-- want of fuel; and with any fuel above the length of the stream the loop does what the phase does.
pub receive_git_loose_ends :
    (gix : Gix) (codecs : Codecs) (git : GitStore) (stream : Bytes) (fuel : ℕ)
    → length stream < fuel
    → (receive_git_loose gix codecs git stream ≢ err out_of_fuel)
      × (loose_rounds gix codecs fuel git start_loose stream
          ≡ receive_git_loose gix codecs git stream)
unfolding receive_git_loose
receive_git_loose_ends gix codecs git stream fuel h = (
  spent_not (receive_git_loose gix codecs git stream)
      (Lasts-rounds gix codecs (length stream + 1) git start_loose stream (omega arith)),
  loose_rounds_enough gix codecs fuel (length stream + 1) git start_loose stream h (omega arith),
)
