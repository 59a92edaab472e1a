-- ===== src/Config/Membership/Ranking.antt =====
-- The ranking of records: what is asked of `Register::outranks`, and the record on which two settle.
use jj_mesh.Prelude.{
  gtb_irrefl, gtb_trans, gtb_total, nat_ord, bool_ord, pair_ord, list_ord, option_ord, reverse_ord,
  if◌then◌else◌, ◌<◌, ◌≡◌, true, false, arith,
}
use jj_mesh.Config.Membership.Register.{Register}
use jj_mesh.Config.Membership.Peers.{peer_rank, peer_outranks, peer_register, Peer}
use jj_mesh.Config.Membership.Repos.{repo_rank, repo_outranks, repo_register, MeshRepo}

-- A strict total order on records that looks at the version first.
pub record IsRanked {V : Type 0} (r : Register V) : Type 0 where
  pub irrefl : (a : V) → r.outranks a a ≡ false
  pub trans : (a b c : V) → r.outranks a b ≡ true → r.outranks b c ≡ true → r.outranks a c ≡ true
  pub total : (a b : V) → r.outranks a b ≡ false → r.outranks b a ≡ false → a ≡ b
  pub versioned : (a b : V) → r.version b < r.version a → r.outranks a b ≡ true

module _ {V : Type 0} ⦃r : Register V⦄ where
  -- What a machine that holds `ours` holds after it has seen `theirs`.
  abbrev pub settle : V → V → V
  settle ours theirs = if r.outranks theirs ours then theirs else ours

  module _ (ranked : IsRanked r) where
    pub settle_idem : (a : V) → settle a a ≡ a
    settle_idem a = ground (arith, ranked.irrefl a)

    pub settle_comm : (a b : V) → settle a b ≡ settle b a
    settle_comm a b = ground (arith, ranked.total a b, ranked.trans a b a, ranked.irrefl a)

    pub settle_assoc : (a b c : V) → settle (settle a b) c ≡ settle a (settle b c)
    settle_assoc a b c = ground (
      arith,
      ranked.trans c b a,
      ranked.trans b c a,
      ranked.trans b a c,
      ranked.trans c a b,
      ranked.total a b,
      ranked.total b c,
      ranked.total a c,
    )

peer_rank_injective : (p q : Peer) → peer_rank p ≡ peer_rank q → p ≡ q
peer_rank_injective p q h = ground arith

repo_rank_injective : (p q : MeshRepo) → repo_rank p ≡ repo_rank q → p ≡ q
repo_rank_injective p q h = ground arith

-- The ranking of peers is a strict total order on the records, and a later version outranks.
pub peer-IsRanked : IsRanked peer_register
unfolding peer_outranks
peer-IsRanked = record {
  irrefl = λ a. gtb_irrefl (peer_rank a);
  trans = λ a b c. gtb_trans (peer_rank a) (peer_rank b) (peer_rank c);
  total = λ a b h k. peer_rank_injective a b (gtb_total (peer_rank a) (peer_rank b) h k);
  versioned = λ a b h. ground arith;
}

-- The ranking of repos is a strict total order on the records, and a later version outranks.
pub repo-IsRanked : IsRanked repo_register
unfolding repo_outranks
repo-IsRanked = record {
  irrefl = λ a. gtb_irrefl (repo_rank a);
  trans = λ a b c. gtb_trans (repo_rank a) (repo_rank b) (repo_rank c);
  total = λ a b h k. repo_rank_injective a b (gtb_total (repo_rank a) (repo_rank b) h k);
  versioned = λ a b h. ground arith;
}
