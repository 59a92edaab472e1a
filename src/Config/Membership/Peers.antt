-- ===== src/Config/Membership/Peers.antt =====
-- `Peer`, `PeerStatus` and their ranking.
use jj_mesh.Prelude.{
  nat_ord, bool_ord, pair_ord, list_ord, option_ord, reverse_ord, ℕ, Bool, Option, none, some, [],
  Reverse, reverse, gtb, is_some, not,
}
use jj_mesh.Config.Name.{Text}
use jj_mesh.Config.Membership.Register.{Register}

pub data PeerStatus : Type 0 where
  alive : Text → PeerStatus
  removed : PeerStatus

pub record Peer : Type 0 where
  pub version : ℕ
  pub status : PeerStatus

abbrev pub status_name : PeerStatus → Option Text
status_name (alive name) = some name
status_name removed = none

-- `Peer::name`
abbrev pub peer_name : Peer → Option Text
peer_name p = status_name p.status

abbrev pub unwrap_or_empty : Option Text → Text
unwrap_or_empty none = []
unwrap_or_empty (some name) = name

abbrev pub peer_rank : Peer → ℕ × (Bool × Reverse Text)
peer_rank p = (p.version, (not (is_some (peer_name p)), reverse (unwrap_or_empty (peer_name p))))

unfoldable pub peer_outranks : Peer → Peer → Bool
peer_outranks p q = gtb (peer_rank p) (peer_rank q)

instance abbrev pub peer_register : Register Peer
peer_register = record { version = λ p. p.version; outranks = peer_outranks }
