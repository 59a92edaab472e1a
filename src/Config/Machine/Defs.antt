-- ===== src/Config/Machine/Defs.antt =====
-- `Machine` and its operations.
use jj_mesh.Prelude.{
  is_ok, Result, ok, eqb, nat_ord, bool_ord, pair_ord, list_ord, option_ord, reverse_ord, ◌==◌,
  if◌then◌else◌, is_empty, ℕ, ◌-◌, min, max, Bool, Option, none, some, [], ◌∷◌, ◌>>=◌, ◌>>◌,
}
use jj_mesh.Config.Error.{Kind, Error}
use jj_mesh.Config.Name.{Text, validate_name}
use jj_mesh.Config.Membership.Register.{max_record_version, add_u64, next_version}
use jj_mesh.Config.Membership.Peers.{peer_name, peer_register, alive, Peer}
use jj_mesh.Config.Membership.Repos.{repo_register}

pub record Machine : Type 0 where
  pub name : Text
  pub version : ℕ

abbrev pub text_eq : Text → Text → Bool
text_eq s t = eqb ⦃o = list_ord⦄ s t

unfoldable pub rename : Machine → Text → Result Error Machine
rename m name = do
  validate_name Kind.machine name
  if text_eq name m.name
      then ok m
      else do version ← next_version m.version; ok (record { name = name; version = version })

-- `Machine::record`
abbrev pub own_record : Machine → Peer
own_record m = record { version = m.version; status = alive m.name }

-- The version that a copy of our record makes us reach.
abbrev pub outranking : Machine → Peer → Option Text → ℕ
outranking m copy none = copy.version
outranking m copy (some name) = if text_eq name m.name then copy.version else add_u64 copy.version 1

unfoldable pub observe : Machine → Peer → Machine
observe m copy = record m {
  version = min (max m.version (outranking m copy (peer_name copy))) (max_record_version - 1);
}

-- `str::split_once`, the part before the first `c`
split_once : ℕ → Text → Option Text
split_once c [] = none
split_once c (x ∷ xs) =
    let rest = split_once c xs in
    if x == c then some [] else elim rest [ none ↦ none | some before ↦ some (x ∷ before) ]

short_of : Text → Option Text → Text
short_of name none = name
short_of name (some short) = if is_empty short then name else short

abbrev pub invalid_hostname : Text
invalid_hostname =
    b'[' ∷ b'i' ∷ b'n' ∷ b'v' ∷ b'a' ∷ b'l' ∷ b'i' ∷ b'd' ∷ b' ' ∷ b'h' ∷ b'o' ∷ b's' ∷ b't' ∷ b'n'
    ∷ b'a' ∷ b'm' ∷ b'e' ∷ b']' ∷ []

-- `short_hostname`, of the host's name
unfoldable pub short_hostname : Text → Text
unfolding split_once short_of
short_hostname hostname =
    let short = short_of hostname (split_once b'.' hostname) in
    if is_ok (validate_name Kind.machine short) then short else invalid_hostname

-- `Machine::default`
abbrev pub default_machine : Text → Machine
default_machine hostname = record { name = short_hostname hostname; version = 0 }
