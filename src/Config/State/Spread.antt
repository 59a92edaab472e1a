-- ===== src/Config/State/Spread.antt =====
-- `remove_peer` on one machine and a merge on another.
use jj_mesh.Prelude.{
  ok, get-AllEntries, BTreeMap, get, insert, Sorted, get-insert, insert-Sorted, eqb_refl, eqb_sound,
  Ord, nat_ord, bool_ord, pair_ord, list_ord, option_ord, reverse_ord, Option-cases, ℕ, ◌≤◌, ◌<◌,
  ◌≡◌, ◌≢◌, inl, inr, true, Option, none, some, arith,
}
use jj_mesh.Config.Name.{Text}
use jj_mesh.Config.Membership.Register.{max_other_peers}
use jj_mesh.Config.Membership.Peers.{peer_register, Peer}
use jj_mesh.Config.Membership.Repos.{repo_register}
use jj_mesh.Config.Membership.Ranking.{peer-IsRanked}
use jj_mesh.Config.Membership.Adoption.{adopt_all, get-adopt_all_known, adopt_all_source}
use jj_mesh.Config.Machine.{own_record}
use jj_mesh.Config.Claims.{claims_register}
use jj_mesh.Config.State.Defs.{name_of_peer, paired_name, membership, MeshState}
use jj_mesh.Config.State.Ops.{remove_peer}
use jj_mesh.Config.State.Merge.{merge_membership}
use jj_mesh.Config.State.Loops.{valid_peer, peers-merge}
use jj_mesh.Config.State.WellFormed.{IsWellFormed}
use jj_mesh.Config.State.Tombstones.{tombstone, remove_peer-IsWellFormed, remove_peer_lem}

module _ {E : Type 0} ⦃oe : Ord E⦄ where
  tombstone_adopted :
      (there endpoint : E) (m es : BTreeMap E Peer) (v : ℕ)
      → Sorted es
      → get endpoint es ≡ some (tombstone v)
      → valid_peer there endpoint (tombstone v) ≡ true
      → ((q : Peer) → get endpoint m ≡ some q → q.version < v)
      → name_of_peer (get endpoint (adopt_all (valid_peer there) max_other_peers m es)) ≡ none
  tombstone_adopted there endpoint m es v s theirs valid older =
      elim (Option-cases (get endpoint (adopt_all (valid_peer there) max_other_peers m es))) [
        | inl absent ↦ rw absent
        | inr (b, held) ↦ elim (Option-cases (get endpoint m)) [
          | inl unknown ↦
              elim (adopt_all_source (valid_peer there) max_other_peers peer-IsRanked endpoint m es
                s held) [ inl before ↦ cc | inr after ↦ rw held (ground arith) ]
          | inr (q, known) ↦
              let won = peer-IsRanked.versioned (tombstone v) q (older q known) in
              rw
                (get-adopt_all_known (valid_peer there) max_other_peers peer-IsRanked endpoint m es
                  q (tombstone v) s theirs valid known)
                (rw won)
        ]
      ]

  -- Once a machine was removed on `here`, merging the membership of `here` removes it on `there`,
  -- unless `there` holds a later record of it, or is the removed machine.
  pub remove_peer_spreads :
      (parse : Text → Option E) (here there : E) (s u : MeshState E) (selector : Text)
      {t : MeshState E} {endpoint : E} {old : Peer}
      → IsWellFormed here s
      → remove_peer parse s selector ≡ ok (t, endpoint)
      → get endpoint s.peers ≡ some old
      → endpoint ≢ there
      → ((q : Peer) → get endpoint u.peers ≡ some q → q.version ≤ old.version)
      → paired_name (merge_membership u (membership t here) there).0 endpoint ≡ none
  unfolding membership
  remove_peer_spreads parse here there s u selector {t} {endpoint} {old} w h held ne older =
      let after = remove_peer-IsWellFormed parse here s selector w h in
      let (v, now, newer) = (remove_peer_lem parse here s selector w h).3 old held in
      let valid =
        get-AllEntries (valid_peer here) endpoint (tombstone v) t.peers after.peers_valid now in
      let own = own_record t.machine in
      rw peers-merge (
        tombstone_adopted there endpoint u.peers (insert here own t.peers) v
          (insert-Sorted here own t.peers after.peers_sorted)
          (ground (
            arith,
            get-insert endpoint here own t.peers,
            eqb_sound here endpoint,
            eqb_refl endpoint,
          ))
          (ground (arith, eqb_sound endpoint there)) (λ q known. omega (arith, older q known)))
