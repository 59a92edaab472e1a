-- ===== src/Tests/Wire.antt =====
-- A framed message whose encoding is itself.
use jj_mesh.Prelude.{
  ok, nat_ord, bool_ord, pair_ord, list_ord, option_ord, reverse_ord, ℕ, ◌≡◌, refl, Option, some,
  List, [], ◌∷◌, ◌++◌,
}
use jj_mesh.Config.Membership.Peers.{peer_register}
use jj_mesh.Config.Membership.Repos.{repo_register}
use jj_mesh.Config.Claims.{claims_register}
use jj_mesh.Net.Wire.{to_le_bytes, write_message, read_message, read-write_message}

abbrev same_bytes : List ℕ → List ℕ
same_bytes bytes = bytes

abbrev all_bytes : List ℕ → Option (List ℕ × List ℕ)
all_bytes bytes = some (bytes, [])

abbrev hello : List ℕ
hello = b'h' ∷ b'i' ∷ []

written_hello : write_message same_bytes 256 hello ≡ some (ok (to_le_bytes 2 ++ hello))
unfolding write_message
written_hello = refl

read-write_message_example :
    read_message all_bytes 256 ((to_le_bytes 2 ++ hello) ++ 7 ∷ []) ≡ ok (hello, 7 ∷ [])
read-write_message_example =
    read-write_message same_bytes all_bytes 256 hello (to_le_bytes 2 ++ hello) (7 ∷ []) refl
      written_hello
