-- ===== src/Net/Fetch.antt =====
-- src/net/fetch.rs: the frames of the fetch protocol with their limits, and the decompression of payloads.
-- The decoder of zstd is a parameter that gives the bytes it yields and whether it ends without a failure.
use jj_mesh.Prelude.{
  ensure, Result, ok, err, nat_ord, bool_ord, pair_ord, list_ord, option_ord, reverse_ord, leb,
  length, ℕ, zero, suc, ◌+◌, ◌%◌, ◌≤◌, ◌<◌, min, ◌≡◌, ◌↔◌, refl, ap, Bool, true, false, ◌||◌,
  Option, none, some, List, [], ◌∷◌, arith, ◌>>◌,
}
use jj_mesh.Config.Name.{Text, take}
use jj_mesh.Config.Membership.Peers.{peer_register}
use jj_mesh.Config.Membership.Repos.{repo_register}
use jj_mesh.Config.Claims.{claims_register}

abbrev pub max_op_frame_size : ℕ
max_op_frame_size = 4194304

-- `u32::MAX`
abbrev pub max_git_frame_size : ℕ
max_git_frame_size = 4294967295

abbrev pub max_git_request_size : ℕ
max_git_request_size = 67108864

abbrev pub max_wants : ℕ
max_wants = 64

abbrev pub max_haves : ℕ
max_haves = 256

abbrev pub max_git_haves : ℕ
max_git_haves = 4096

abbrev pub max_git_object_size : ℕ
max_git_object_size = 536870912

pub data PayloadError : Type 0 where
  bad_zstd payload_too_large : PayloadError

abbrev pub payload_mod : ℕ
payload_mod = 18446744073709551616

-- `max_size + 1`, which wraps as a `u64` does
abbrev pub read_limit : ℕ → ℕ
read_limit max_size = (max_size + 1) % payload_mod

-- `decoder.take(max_size + 1).read_to_end`, and the test of its length: a failure of the decoder after as many
-- bytes is not met.
abbrev pub read_limited : ℕ → Option (List ℕ × Bool) → Result PayloadError (List ℕ)
read_limited max_size none = err bad_zstd
read_limited max_size (some (out, clean)) = do
  ensure (clean || leb (read_limit max_size) (length out)) bad_zstd
  ensure (leb (length (take (read_limit max_size) out)) max_size) payload_too_large
  ok (take (read_limit max_size) out)

unfoldable pub decompress_payload :
    (List ℕ → Option (List ℕ × Bool)) → List ℕ → ℕ → Result PayloadError (List ℕ)
decompress_payload decoder bytes max_size = read_limited max_size (decoder bytes)

pub data OpFrame : Type 0 where
  op_begin : ℕ → ℕ → OpFrame
  view_frame op_frame : List ℕ → List ℕ → OpFrame
  op_done : OpFrame
  op_error : Text → OpFrame

pub data GitTransferFormat : Type 0 where
  loose pack : GitTransferFormat

pub record GitRequest : Type 0 where
  pub wants : List (List ℕ)
  pub haves : List (List ℕ)
  pub format : GitTransferFormat

pub data WireObjectKind : Type 0 where
  commit_object tree_object blob_object tag_object : WireObjectKind

pub data GitFrame : Type 0 where
  object_frame : List ℕ → WireObjectKind → List ℕ → GitFrame
  pack_frame : List ℕ → GitFrame
  git_done : GitFrame
  git_error : Text → GitFrame

length-take : {A : Type 0} (n : ℕ) (xs : List A) → length (take n xs) ≡ min n (length xs)
unfolding take
length-take zero xs = omega arith
length-take (suc n) [] = omega arith
length-take (suc n) (x ∷ xs) = omega (arith, length-take n xs)

take-all : {A : Type 0} (n : ℕ) (xs : List A) → length xs ≤ n → take n xs ≡ xs
unfolding take
take-all zero [] h = refl
take-all (suc n) [] h = refl
take-all zero (x ∷ xs) h = absurd (omega arith)
take-all (suc n) (x ∷ xs) h = ap (λ t. x ∷ t) (take-all n xs (omega arith))

unwrapped : (max_size : ℕ) → max_size + 1 < payload_mod → read_limit max_size ≡ max_size + 1
unwrapped max_size h = omega arith

pub decompress_payload_lem :
    (decoder : List ℕ → Option (List ℕ × Bool)) (bytes : List ℕ) (max_size : ℕ)
    → max_size + 1 < payload_mod
    → (decoder bytes ≡ none → decompress_payload decoder bytes max_size ≡ err bad_zstd)
      × ((out : List ℕ) (clean : Bool)
          → decoder bytes ≡ some (out, clean)
          → (clean ≡ true
              → length out ≤ max_size
              → decompress_payload decoder bytes max_size ≡ ok out)
            × (clean ≡ false
                → length out ≤ max_size
                → decompress_payload decoder bytes max_size ≡ err bad_zstd)
            × (max_size < length out
                → decompress_payload decoder bytes max_size ≡ err payload_too_large))
unfolding decompress_payload
decompress_payload_lem decoder bytes max_size small = (
  λ h. rw h refl,
  λ out clean h. (
    λ c fits.
        rw (h, c, unwrapped max_size small, take-all (max_size + 1) out (omega arith))
          (ground arith),
    λ c fits. rw (h, c, unwrapped max_size small) (ground arith),
    λ long. rw (h, unwrapped max_size small) (ground (arith, length-take (max_size + 1) out)),
  ),
)

accepted :
    (read : Option (List ℕ × Bool)) (out : List ℕ) (max_size : ℕ)
    → max_size + 1 < payload_mod
    → read_limited max_size read ≡ ok out
    → (read ≡ some (out, true)) × (length out ≤ max_size)
accepted none out max_size small h = cc
accepted (some (all_out, clean)) out max_size small h =
    let lengths = length-take (max_size + 1) all_out in
    let whole = take-all (max_size + 1) all_out in
    ground (arith, rw (unwrapped max_size small) at h, lengths, whole)

-- Below the largest `u64`, a payload is accepted with some bytes exactly when the decoder yields these and no
-- more, ends without a failure, and they are within the limit: what is accepted is never cut.
pub decompress_payload_iff :
    (decoder : List ℕ → Option (List ℕ × Bool)) (bytes out : List ℕ) (max_size : ℕ)
    → max_size + 1 < payload_mod
    → (decompress_payload decoder bytes max_size ≡ ok out)
      ↔ ((decoder bytes ≡ some (out, true)) × (length out ≤ max_size))
unfolding decompress_payload
decompress_payload_iff decoder bytes out max_size small = (
  λ h. accepted (decoder bytes) out max_size small h,
  λ h.
      let (a, b, c) = (decompress_payload_lem decoder bytes max_size small).1 out true (h.0) in
      a refl (h.1),
)
