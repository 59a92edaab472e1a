-- ===== src/Config/State/Tombstones.antt =====
-- `remove_peer`: the tombstone, and the claims of the removed machine.
use mathlib.Core.Bool.{false≢true}
use native.Mathlib.Nat.{le_trans}
use jj_mesh.Prelude.{
  >>=-eq-ok, ok, AllEntries, insert-AllEntries, get-AllEntries, retain-Sorted, get-retain,
  total-retain-le, BTreeMap, retain, get, contains_key, insert, Sorted, get-insert, insert-Sorted,
  eqb_refl, eqb_sound, Ord, nat_ord, bool_ord, pair_ord, list_ord, option_ord, reverse_ord, ltb,
  is_some, Option-cases, length, ℕ, ◌<◌, ◌≡◌, sym, ap, ◌∙◌, ◌≢◌, inl, inr, true, false, ◌||◌,
  Option, none, some, [], ◌∷◌, arith,
}
use jj_mesh.Config.Name.{Text}
use jj_mesh.Config.Membership.Register.{max_other_peers, max_record_version, bumped_version}
use jj_mesh.Config.Membership.Versions.{bumped_version-lt, bumped_version-newer}
use jj_mesh.Config.Membership.Peers.{peer_register, PeerStatus, Peer}
use jj_mesh.Config.Membership.Repos.{repo_register}
use jj_mesh.Config.Claims.{WorkspaceClaims, count, claims_register}
use jj_mesh.Config.State.Defs.{name_of_peer, paired_name, MeshState}
use jj_mesh.Config.State.Ops.{is_alive, prune_claims, resolve_peer, remove_peer}
use jj_mesh.Config.State.Loops.{valid_peer}
use jj_mesh.Config.State.WellFormed.{claim_ok, valid_claim, length-insert_capped, IsWellFormed}
use jj_mesh.Config.State.Removal.{resolve_peer_sound}

abbrev pub tombstone : ℕ → Peer
tombstone v = record { version = v; status = PeerStatus.removed }

module _ {E : Type 0} ⦃oe : Ord E⦄ where
  -- Claims are valid once those of the machines that are not alive are dropped.
  pub retain-valid_claim :
      (peers : BTreeMap E Peer) (m : BTreeMap E WorkspaceClaims)
      → AllEntries (λ k c. claim_ok c) m
      → AllEntries (valid_claim peers) (retain (λ k c. is_alive peers k) m)
  unfolding retain
  retain-valid_claim peers [] a = tt
  retain-valid_claim peers (e ∷ m) a = ground (arith, retain-valid_claim peers m a.1)

  pub claims_ok :
      (peers : BTreeMap E Peer) (m : BTreeMap E WorkspaceClaims)
      → AllEntries (valid_claim peers) m
      → AllEntries (λ k c. claim_ok c) m
  claims_ok peers [] a = tt
  claims_ok peers (e ∷ m) a = (ground arith, claims_ok peers m a.1)

  pub remove_peer_state :
      (parse : Text → Option E) (s : MeshState E) (selector : Text) {t : MeshState E} {endpoint : E}
      → remove_peer parse s selector ≡ ok (t, endpoint)
      → (v : ℕ) × (resolve_peer parse s selector ≡ ok endpoint)
        × (bumped_version s.peers endpoint ≡ ok v)
        × (t ≡ prune_claims (record s { peers = insert endpoint (tombstone v) s.peers }))
  unfolding remove_peer
  remove_peer_state parse s selector {t} {endpoint} h =
      let (x, resolved, rest) = >>=-eq-ok (resolve_peer parse s selector) _ h in
      let (v, bumped, done) = >>=-eq-ok (bumped_version s.peers x) _ rest in
      let same : x ≡ endpoint = ground arith in
      (v, rw (← same) resolved, rw (← same) bumped, rw (← same) (ground arith))

  resolve_peer_alive :
      (parse : Text → Option E) (s : MeshState E) (selector : Text) (endpoint : E)
      → Sorted s.peers
      → resolve_peer parse s selector ≡ ok endpoint
      → is_alive s.peers endpoint ≡ true
  resolve_peer_alive parse s selector endpoint sorted h =
      elim (resolve_peer_sound parse s selector endpoint sorted h) [
        | inl found ↦ ap is_some found.0
        | inr spelled ↦ spelled.2
      ]

  tombstone_valid :
      (local : E) (peers : BTreeMap E Peer) (endpoint : E) (v : ℕ)
      → AllEntries (valid_peer local) peers
      → is_alive peers endpoint ≡ true
      → v < max_record_version
      → valid_peer local endpoint (tombstone v) ≡ true
  tombstone_valid local peers endpoint v a live bound = elim (Option-cases (get endpoint peers)) [
    | inl absent ↦ absurd (false≢true (ap (λ o. is_some (name_of_peer o)) (sym absent) ∙ live))
    | inr (p, held) ↦ ground (arith, get-AllEntries (valid_peer local) endpoint p peers a held)
  ]

  known_of_alive :
      (peers : BTreeMap E Peer) (endpoint : E)
      → is_alive peers endpoint ≡ true
      → (contains_key endpoint peers || ltb (length peers) max_other_peers) ≡ true
  known_of_alive peers endpoint live = ground arith

  claims_dropped :
      (peers : BTreeMap E Peer) (endpoint : E) (m : BTreeMap E WorkspaceClaims)
      → Sorted m
      → is_alive peers endpoint ≡ false
      → get endpoint (retain (λ k c. is_alive peers k) m) ≡ none
  claims_dropped peers endpoint m s dead =
      ground (arith, get-retain (λ k c. is_alive peers k) endpoint m s)

  -- Removing a machine keeps the state well-formed.
  pub remove_peer-IsWellFormed :
      (parse : Text → Option E) (local : E) (s : MeshState E) (selector : Text) {t : MeshState E}
      {endpoint : E}
      → IsWellFormed local s
      → remove_peer parse s selector ≡ ok (t, endpoint)
      → IsWellFormed local t
  unfolding prune_claims
  remove_peer-IsWellFormed parse local s selector {t} {endpoint} w h =
      let (v, resolved, bumped, e) = remove_peer_state parse s selector h in
      let live = resolve_peer_alive parse s selector endpoint w.peers_sorted resolved in
      let bound = bumped_version-lt s.peers endpoint v bumped in
      let valid = tombstone_valid local s.peers endpoint v w.peers_valid live bound in
      let peers' = insert endpoint (tombstone v) s.peers in
      rw e (record {
        name_valid = w.name_valid;
        machine_version = w.machine_version;
        peers_sorted = insert-Sorted endpoint (tombstone v) s.peers w.peers_sorted;
        peers_valid =
            insert-AllEntries (valid_peer local) endpoint (tombstone v) s.peers valid w.peers_valid;
        peers_cap =
            length-insert_capped max_other_peers endpoint (tombstone v) s.peers w.peers_sorted
              w.peers_cap (known_of_alive s.peers endpoint live);
        repos_sorted = w.repos_sorted;
        registered = w.registered;
        mesh_sorted = w.mesh_sorted;
        mesh_valid = w.mesh_valid;
        mesh_cap = w.mesh_cap;
        claims_version = w.claims_version;
        claims_valid = w.claims_valid;
        claims_sorted = w.claims_sorted;
        peer_claims_sorted =
            retain-Sorted (λ k c. is_alive peers' k) s.peer_claims w.peer_claims_sorted;
        peer_claims_valid =
            retain-valid_claim peers' s.peer_claims
              (claims_ok s.peers s.peer_claims w.peer_claims_valid);
        peer_claims_cap =
            le_trans (total-retain-le count (λ k c. is_alive peers' k) s.peer_claims)
              w.peer_claims_cap;
      })

  -- A removed machine is not alive any more, under a record that outranks the one it had; its claims
  -- are gone, and the other machines are as they were.
  pub remove_peer_lem :
      (parse : Text → Option E) (local : E) (s : MeshState E) (selector : Text) {t : MeshState E}
      {endpoint : E}
      → IsWellFormed local s
      → remove_peer parse s selector ≡ ok (t, endpoint)
      → (paired_name t endpoint ≡ none)
        × (get endpoint t.peer_claims ≡ none)
        × ((other : E) → other ≢ endpoint → get other t.peers ≡ get other s.peers)
        × ((old : Peer)
            → get endpoint s.peers ≡ some old
            → (v : ℕ) × (get endpoint t.peers ≡ some (tombstone v)) × (old.version < v))
  unfolding prune_claims
  remove_peer_lem parse local s selector {t} {endpoint} w h =
      let (v, resolved, bumped, e) = remove_peer_state parse s selector h in
      let now = get-insert endpoint endpoint (tombstone v) s.peers in
      let here = eqb_refl endpoint in
      let peers' = insert endpoint (tombstone v) s.peers in
      rw e (
        ground arith,
        claims_dropped peers' endpoint s.peer_claims w.peer_claims_sorted (ground arith),
        λ other ne.
            ground
              (arith, get-insert other endpoint (tombstone v) s.peers, eqb_sound endpoint other),
        λ old held.
            let known = get-AllEntries (valid_peer local) endpoint old s.peers w.peers_valid held in
            (
              v,
              ground arith,
              bumped_version-newer s.peers endpoint v old held (ground arith) bumped,
            ),
      )
