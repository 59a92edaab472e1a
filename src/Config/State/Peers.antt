-- ===== src/Config/State/Peers.antt =====
-- `add_peer`, on success and on failure.
use jj_mesh.Prelude.{
  is_ok, ok, AllEntries-imp, insert-AllEntries, get-AllEntries, BTreeMap, get, contains_key, insert,
  get-insert, insert-Sorted, eqb_refl, eqb_sound, Ord, nat_ord, bool_ord, pair_ord, list_ord,
  option_ord, reverse_ord, ltb, is_some, length, ℕ, ◌≤◌, ◌<◌, ◌≡◌, refl, ◌≢◌, ◌⊎◌, true, false,
  ◌||◌, none, some, arith,
}
use jj_mesh.Config.Error.{Kind}
use jj_mesh.Config.Name.{Text, validate_name}
use jj_mesh.Config.Membership.Register.{max_other_peers, max_record_version, bumped_version}
use jj_mesh.Config.Membership.Versions.{bumped_version-lt, bumped_version-newer}
use jj_mesh.Config.Membership.Peers.{peer_name, peer_outranks, peer_register, PeerStatus, Peer}
use jj_mesh.Config.Membership.Repos.{repo_register}
use jj_mesh.Config.Membership.Ranking.{peer-IsRanked}
use jj_mesh.Config.Claims.{WorkspaceClaims, claims_register}
use jj_mesh.Config.State.Defs.{paired_name, MeshState}
use jj_mesh.Config.State.Ops.{add_peer}
use jj_mesh.Config.State.Loops.{valid_peer}
use jj_mesh.Config.State.WellFormed.{valid_claim, length-insert_capped, IsWellFormed}

module _ {E : Type 0} ⦃oe : Ord E⦄ where
  new_peer_valid :
      (local endpoint : E) (v : ℕ) (name : Text)
      → endpoint ≢ local
      → v < max_record_version
      → is_ok (validate_name Kind.peer name) ≡ true
      → valid_peer local endpoint (record { version = v; status = PeerStatus.alive name }) ≡ true
  new_peer_valid local endpoint v name ne h valid = ground (arith, eqb_sound endpoint local)

  -- Adding an alive peer keeps the claims of the others valid.
  valid_claim-insert :
      (peers : BTreeMap E Peer) (endpoint : E) (p : Peer)
      → is_some (peer_name p) ≡ true
      → (k : E) (c : WorkspaceClaims) → valid_claim peers k c ≡ true
      → valid_claim (insert endpoint p peers) k c ≡ true
  valid_claim-insert peers endpoint p live k c h = ground (arith, get-insert k endpoint p peers)

  -- What a successful `add_peer` has checked and written
  pub add_peer_state :
      (s : MeshState E) (endpoint : E) (name : Text) {t : MeshState E}
      → add_peer s endpoint name ≡ ok t
      → (v : ℕ) × (bumped_version s.peers endpoint ≡ ok v)
        × (is_ok (validate_name Kind.peer name) ≡ true)
        × (paired_name s endpoint ≡ none)
        × ((contains_key endpoint s.peers || ltb (length s.peers) max_other_peers) ≡ true)
        × (t ≡ record s {
          peers = insert endpoint (record { version = v; status = PeerStatus.alive name }) s.peers;
        })
  unfolding add_peer
  add_peer_state s endpoint name h = ground arith

  -- Pairing a machine other than this one keeps the state well-formed.
  pub add_peer-IsWellFormed :
      (local : E) (s : MeshState E) (endpoint : E) (name : Text) {t : MeshState E}
      → IsWellFormed local s
      → endpoint ≢ local
      → add_peer s endpoint name ≡ ok t
      → IsWellFormed local t
  add_peer-IsWellFormed local s endpoint name w ne h =
      let (v, bumped, valid, fresh, room, e) = add_peer_state s endpoint name h in
      let p : Peer = record { version = v; status = PeerStatus.alive name } in
      let bound = bumped_version-lt s.peers endpoint v bumped in
      rw e (record {
        name_valid = w.name_valid;
        machine_version = w.machine_version;
        peers_sorted = insert-Sorted endpoint p s.peers w.peers_sorted;
        peers_valid =
            insert-AllEntries (valid_peer local) endpoint p s.peers
              (new_peer_valid local endpoint v name ne bound valid) w.peers_valid;
        peers_cap =
            length-insert_capped max_other_peers endpoint p s.peers w.peers_sorted w.peers_cap room;
        repos_sorted = w.repos_sorted;
        registered = w.registered;
        mesh_sorted = w.mesh_sorted;
        mesh_valid = w.mesh_valid;
        mesh_cap = w.mesh_cap;
        claims_version = w.claims_version;
        claims_valid = w.claims_valid;
        claims_sorted = w.claims_sorted;
        peer_claims_sorted = w.peer_claims_sorted;
        peer_claims_valid =
            AllEntries-imp (valid_claim-insert s.peers endpoint p refl) s.peer_claims
              w.peer_claims_valid;
        peer_claims_cap = w.peer_claims_cap;
      })

  -- A paired machine is alive under its name, under a record that outranks the one held before, and
  -- every other machine is as it was.
  add_peer_lem :
      (local : E) (s : MeshState E) (endpoint : E) (name : Text) {t : MeshState E}
      → IsWellFormed local s
      → add_peer s endpoint name ≡ ok t
      → (paired_name s endpoint ≡ none)
        × (paired_name t endpoint ≡ some name)
        × ((other : E) → other ≢ endpoint → get other t.peers ≡ get other s.peers)
        × ((old new : Peer)
            → get endpoint s.peers ≡ some old
            → get endpoint t.peers ≡ some new
            → peer_outranks new old ≡ true)
  add_peer_lem local s endpoint name w h =
      let (v, bumped, valid, fresh, room, e) = add_peer_state s endpoint name h in
      let p : Peer = record { version = v; status = PeerStatus.alive name } in
      rw e (
        fresh,
        rw (get-insert, eqb_refl),
        λ other ne. ground (arith, get-insert other endpoint p s.peers, eqb_sound endpoint other),
        λ old new held now.
            let known = get-AllEntries (valid_peer local) endpoint old s.peers w.peers_valid held in
            let newer = bumped_version-newer s.peers endpoint v old held (ground arith) bumped in
            let same : new ≡ p =
              ground (arith, get-insert endpoint endpoint p s.peers, eqb_refl endpoint) in
            rw same (peer-IsRanked.versioned p old newer),
      )

  -- Adding a machine fails only when the name is not valid, the machine is alive already, it is new and the
  -- mesh is full, or the version of its record is next to the ceiling.
  add_peer_fails :
      (s : MeshState E) (endpoint : E) (name : Text)
      → is_ok (add_peer s endpoint name) ≡ false
      → (is_ok (validate_name Kind.peer name) ≡ false)
        ⊎ (is_some (paired_name s endpoint) ≡ true)
        ⊎ (get endpoint s.peers ≡ none) × (max_other_peers ≤ length s.peers)
        ⊎ (is_ok (bumped_version s.peers endpoint) ≡ false)
  unfolding add_peer
  add_peer_fails s endpoint name h = ground arith
