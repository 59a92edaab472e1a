-- ===== src/Net/Wire.antt =====
-- src/net/wire.rs: length-prefixed messages. A stream is the list of its bytes; `encode` and `decode` are those
-- of postcard, where `decode` gives the message and the bytes that it did not read.
use jj_mesh.Prelude.{
  ensure, >>=-eq-ok, Result, ok, err, nat_ord, bool_ord, pair_ord, list_ord, option_ord,
  reverse_ord, ltb, leb, if◌then◌else◌, length, is_empty, ℕ, zero, suc, ◌+◌, ◌*◌, ◌/◌, ◌%◌, ◌≤◌,
  ◌<◌, ◌≡◌, refl, ap, true, Option, none, some, List, [], ◌∷◌, ◌++◌, arith, ◌>>=◌, ◌>>◌,
}
use jj_mesh.Config.Membership.Peers.{peer_register}
use jj_mesh.Config.Membership.Repos.{repo_register}
use jj_mesh.Config.Claims.{claims_register}

pub data WireError : Type 0 where
  message_too_large end_of_stream cannot_decode trailing_bytes : WireError

abbrev pub u32_mod : ℕ
u32_mod = 4294967296

-- `u32::to_le_bytes`
abbrev pub to_le_bytes : ℕ → List ℕ
to_le_bytes n = n % 256 ∷ n / 256 % 256 ∷ n / 65536 % 256 ∷ n / 16777216 % 256 ∷ []

-- `u32::from_le_bytes`
abbrev pub from_le_bytes : ℕ → ℕ → ℕ → ℕ → ℕ
from_le_bytes a b c d = a + 256 * b + 65536 * c + 16777216 * d

-- `read_exact`: the first bytes, and the stream after them
unfoldable pub read_exact : ℕ → List ℕ → Result WireError (List ℕ × List ℕ)
read_exact zero stream = ok ([], stream)
read_exact (suc n) [] = err end_of_stream
read_exact (suc n) (b ∷ stream) = do (bytes, rest) ← read_exact n stream; ok (b ∷ bytes, rest)

-- A conversion to `u32` that fails is a panic, `none`.
unfoldable pub write_message :
    {T : Type 0} → (T → List ℕ) → ℕ → T → Option (Result WireError (List ℕ))
write_message encode max_size message =
    let bytes = encode message in
    if ltb (length bytes) u32_mod
    then some (do
      ensure (leb (length bytes) max_size) message_too_large
      ok (to_le_bytes (length bytes) ++ bytes))
    else none

abbrev pub read_size : List ℕ → Result WireError (ℕ × List ℕ)
read_size (a ∷ b ∷ c ∷ d ∷ stream) = ok (from_le_bytes a b c d, stream)
read_size _ = err end_of_stream

abbrev pub decode_all : {T : Type 0} → Option (T × List ℕ) → Result WireError T
decode_all none = err cannot_decode
decode_all (some (message, rest)) = do ensure (is_empty rest) trailing_bytes; ok message

-- The message, and the stream after it
unfoldable pub read_message :
    {T : Type 0} → (List ℕ → Option (T × List ℕ)) → ℕ → List ℕ → Result WireError (T × List ℕ)
read_message decode max_size stream = do
  (size, after_size) ← read_size stream
  ensure (leb size max_size) message_too_large
  (bytes, rest) ← read_exact size after_size
  message ← decode_all (decode bytes)
  ok (message, rest)

from-to_le_bytes :
    (n : ℕ)
    → n < u32_mod
    → from_le_bytes (n % 256) (n / 256 % 256) (n / 65536 % 256) (n / 16777216 % 256) ≡ n
from-to_le_bytes n h = omega arith

pub read_exact-append :
    (bytes rest : List ℕ) → read_exact (length bytes) (bytes ++ rest) ≡ ok (bytes, rest)
unfolding read_exact
read_exact-append [] rest = refl
read_exact-append (b ∷ bytes) rest = rw (read_exact-append bytes rest) refl

-- A message that was written is read back, whatever follows it on the stream, when `decode` reads back
-- what `encode` made of it and both sides have the same limit.
pub read-write_message :
    {T : Type 0} (encode : T → List ℕ) (decode : List ℕ → Option (T × List ℕ)) (max_size : ℕ)
    (message : T) (written rest : List ℕ)
    → decode (encode message) ≡ some (message, [])
    → write_message encode max_size message ≡ some (ok written)
    → read_message decode max_size (written ++ rest) ≡ ok (message, rest)
unfolding write_message read_message
read-write_message encode decode max_size message written rest h k =
    let bytes = encode message in
    let small : length bytes < u32_mod = ground arith in
    let fits : leb (length bytes) max_size ≡ true = ground arith in
    let e : to_le_bytes (length bytes) ++ bytes ≡ written = ground arith in
    rw (← e, from-to_le_bytes (length bytes) small, fits, read_exact-append bytes rest, h) refl

read_exact_shorter :
    (n : ℕ) (stream bytes rest : List ℕ)
    → read_exact n stream ≡ ok (bytes, rest)
    → length rest ≤ length stream
unfolding read_exact
read_exact_shorter zero stream bytes rest h =
    let e : stream ≡ rest = ground arith in rw (← e) (omega arith)
read_exact_shorter (suc n) [] bytes rest h = cc
read_exact_shorter (suc n) (b ∷ stream) bytes rest h =
    let ((taken, left), e, made) = >>=-eq-ok (read_exact n stream) _ h in
    let same : left ≡ rest = ground arith in
    omega (arith, read_exact_shorter n stream taken left e, ap length same)

read_size_shorter :
    (stream after_size : List ℕ) (size : ℕ)
    → read_size stream ≡ ok (size, after_size)
    → length after_size < length stream
read_size_shorter [] after_size size h = cc
read_size_shorter (a ∷ []) after_size size h = cc
read_size_shorter (a ∷ b ∷ []) after_size size h = cc
read_size_shorter (a ∷ b ∷ c ∷ []) after_size size h = cc
read_size_shorter (a ∷ b ∷ c ∷ d ∷ stream) after_size size h =
    let same : stream ≡ after_size = ground arith in rw (← same) (omega arith)

-- A message that is read takes some bytes off the stream.
pub read_message_shorter :
    {T : Type 0} (decode : List ℕ → Option (T × List ℕ)) (max_size : ℕ) (stream rest : List ℕ)
    (message : T)
    → read_message decode max_size stream ≡ ok (message, rest)
    → length rest < length stream
unfolding read_message
read_message_shorter decode max_size stream rest message h =
    let ((size, after_size), e, h₁) = >>=-eq-ok (read_size stream) _ h in
    let (_, _, h₂) = >>=-eq-ok (ensure (leb size max_size) message_too_large) _ h₁ in
    let ((bytes, left), f, h₃) = >>=-eq-ok (read_exact size after_size) _ h₂ in
    let (_, _, h₄) = >>=-eq-ok (decode_all (decode bytes)) _ h₃ in
    let same : left ≡ rest = ground arith in
    omega (
      arith,
      read_size_shorter stream after_size size e,
      read_exact_shorter size after_size bytes left f,
      ap length same,
    )
