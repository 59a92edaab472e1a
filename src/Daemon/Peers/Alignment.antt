-- ===== src/Daemon/Peers/Alignment.antt =====
-- The lemmas on `sync`.
use mathlib.Core.List.{Memᴰ}
use mathlib.Core.List.Memᴰ
use jj_mesh.Prelude.{
  kept, BTreeMap, get, contains_key, insert, remove, get-insert, get-remove, eqb, eqb_sound, Ord,
  nat_ord, bool_ord, pair_ord, list_ord, option_ord, reverse_ord, if◌then◌else◌, Bool-cases, ℕ, ◌≡◌,
  refl, sym, ap, ◌∙◌, inl, inr, Bool, true, false, not, ◌&&◌, ◌||◌, Option, none, some, List, [],
  ◌∷◌, map, arith,
}
use jj_mesh.Config.Name.{Text}
use jj_mesh.Config.Membership.Peers.{peer_register}
use jj_mesh.Config.Membership.Repos.{repo_register}
use jj_mesh.Config.Claims.{claims_register}
use jj_mesh.Config.State.Defs.{alive_peers, MeshState}
use jj_mesh.Daemon.Hub.Router.{HubState}
use jj_mesh.Daemon.Peers.Defs.{
  spawn_peer, shutdown, removed_peers, closings, remove_all, spawn_missing, sync, CloseReason,
  PeerState, PeerHandle, PeerSet,
}

-- What a sync leaves of the task of a peer that the mesh state has, or lacks
abbrev pub handle_after : {C : Type 0} → Option (PeerHandle C) → Bool → Option (PeerHandle C)
handle_after held false = none
handle_after none true = some spawn_peer
handle_after (some handle) true = some handle

abbrev pub has_key : {E : Type 0} ⦃oe : Ord E⦄ → E → List E → Bool
has_key id [] = false
has_key id (j ∷ js) = eqb j id || has_key id js

module _ {E C : Type 0} ⦃oe : Ord E⦄ where
  get-spawn_missing :
      (id : E) (peers : BTreeMap E (PeerHandle C)) (desired : BTreeMap E Text)
      → get id (spawn_missing peers desired) ≡ (
          if contains_key id peers
          then get id peers
          else (if contains_key id desired then some spawn_peer else none))
  unfolding spawn_missing get
  get-spawn_missing id peers [] = ground arith
  get-spawn_missing id peers ((j, name) ∷ desired) = ground (
    arith,
    get-spawn_missing id (if contains_key j peers then peers else insert j spawn_peer peers)
        desired,
    get-insert id j spawn_peer peers,
    eqb_sound j id,
  )

  -- Removing what is not desired leaves what is desired.
  any_key : E → List (E × PeerHandle C) → Bool
  any_key id [] = false
  any_key id (e ∷ es) = eqb (e.0) id || any_key id es

  get-remove_all :
      (id : E) (peers : BTreeMap E (PeerHandle C)) (gone : List (E × PeerHandle C))
      → get id (remove_all peers gone) ≡ (if any_key id gone then none else get id peers)
  unfolding any_key
  get-remove_all id peers [] = refl
  get-remove_all id peers (e ∷ es) =
      ground (arith, get-remove_all id (remove (e.0) peers) es, get-remove id (e.0) peers)

  any_key-removed :
      (id : E) (peers : BTreeMap E (PeerHandle C)) (desired : BTreeMap E Text)
      → any_key id (removed_peers peers desired)
        ≡ (contains_key id peers && not (contains_key id desired))
  unfolding any_key removed_peers get
  any_key-removed id [] desired = refl
  any_key-removed id ((j, h) ∷ peers) desired =
      ground (arith, any_key-removed id peers desired, eqb_sound j id)

  has_key-map :
      (id : E) (gone : List (E × PeerHandle C)) → has_key id (map (λ e. e.0) gone) ≡ any_key id gone
  unfolding any_key
  has_key-map id [] = refl
  has_key-map id (e ∷ es) = ground (arith, has_key-map id es)

  closed_of_removed :
      (id : E) (conn : C) (since : ℕ) (handle : PeerHandle C) (peers : BTreeMap E (PeerHandle C))
      (desired : BTreeMap E Text)
      → get id peers ≡ some handle
      → handle.state ≡ PeerState.connected_since conn since
      → contains_key id desired ≡ false
      → Memᴰ (conn, CloseReason.for_removal) (closings (removed_peers peers desired))
  unfolding get removed_peers
  closed_of_removed id conn since handle [] desired h s n = cc
  closed_of_removed id conn since handle ((j, held) ∷ peers) desired h s n =
      elim (Bool-cases (eqb j id)) [
        | inl same ↦
            let e : held ≡ handle = ground arith in
            let key : contains_key j desired ≡ false = rw (eqb_sound j id same) n in
            rw (key, e, s) (Memᴰ.head refl)
        | inr other ↦
            let later = closed_of_removed id conn since handle peers desired (ground arith) s n in
            elim (Bool-cases (contains_key j desired)) [
              | inl kept ↦ rw kept later
              | inr gone ↦ rw gone (Memᴰ.append_right (shutdown held.state) later)
            ]
      ]

  -- What is closed was held by a removed peer.
  pub record IsRemoved (peers : BTreeMap E (PeerHandle C)) (desired : BTreeMap E Text)
      (closing : C × CloseReason) : Type 0 where
    pub id : E
    pub handle : PeerHandle C
    pub since : ℕ
    pub is_managed : Memᴰ (id, handle) peers
    pub holds_it : handle.state ≡ PeerState.connected_since closing.0 since
    pub is_gone : contains_key id desired ≡ false
    pub reason : closing.1 ≡ CloseReason.for_removal

  later-IsRemoved :
      (e : E × PeerHandle C) (peers : BTreeMap E (PeerHandle C)) (desired : BTreeMap E Text)
      (closing : C × CloseReason)
      → IsRemoved peers desired closing
      → IsRemoved (e ∷ peers) desired closing
  later-IsRemoved e peers desired closing r = record {
    id = r.id;
    handle = r.handle;
    since = r.since;
    is_managed = Memᴰ.tail r.is_managed;
    holds_it = r.holds_it;
    is_gone = r.is_gone;
    reason = r.reason;
  }

  shutdown-IsRemoved :
      (id : E) (handle : PeerHandle C) (state : PeerState C) (closing : C × CloseReason)
      (peers : BTreeMap E (PeerHandle C)) (desired : BTreeMap E Text)
      → handle.state ≡ state
      → contains_key id desired ≡ false
      → Memᴰ closing (shutdown state)
      → IsRemoved ((id, handle) ∷ peers) desired closing
  shutdown-IsRemoved id handle (PeerState.connected_since conn since) closing peers desired e n m =
      let same = Memᴰ.eq_of_singleton m in
      record {
        id = id;
        handle = handle;
        since = since;
        is_managed = Memᴰ.head refl;
        holds_it = e ∙ ap (λ c. PeerState.connected_since (c.0) since) (sym same);
        is_gone = n;
        reason = ap (λ c. c.1) same;
      }
  shutdown-IsRemoved id handle (PeerState.connecting failures) closing peers desired e n m =
      elim m [ ]
  shutdown-IsRemoved id handle (PeerState.backing_off until error) closing peers desired e n m =
      elim m [ ]

  IsRemoved-of_closed :
      (closing : C × CloseReason) (peers : BTreeMap E (PeerHandle C)) (desired : BTreeMap E Text)
      → Memᴰ closing (closings (removed_peers peers desired))
      → IsRemoved peers desired closing
  unfolding removed_peers
  IsRemoved-of_closed closing [] desired m = elim m [ ]
  IsRemoved-of_closed closing ((j, held) ∷ peers) desired m =
      elim (Bool-cases (contains_key j desired)) [
        | inl kept ↦
            later-IsRemoved (j, held) peers desired closing
              (IsRemoved-of_closed closing peers desired (rw kept at m))
        | inr gone ↦ elim (Memᴰ.append_cases (shutdown held.state) (rw gone at m)) [
          | inl here ↦ shutdown-IsRemoved j held held.state closing peers desired refl gone here
          | inr later ↦
              later-IsRemoved (j, held) peers desired closing
                (IsRemoved-of_closed closing peers desired later)
        ]
      ]

  -- A sync keeps the task of every managed peer that the mesh state still has, with its state, starts one for
  -- every other peer of it, and keeps no more; it ends the tasks of just the managed peers that the state lacks,
  -- closes the connections that these hold, and no connection that is not held by such a peer, and gives the hub
  -- the names of the state.
  pub sync_lem :
      {R : Type 0} (set : PeerSet E C) (hub : HubState E C R) (state : MeshState E) (id : E)
      → let desired = alive_peers state.peers in
        let result = sync set hub state in
        (get id result.set.peers ≡ handle_after (get id set.peers) (contains_key id desired))
        × (has_key id result.ending ≡ (contains_key id set.peers && not (contains_key id desired)))
        × ((conn : C) (since : ℕ) (handle : PeerHandle C)
            → get id set.peers ≡ some handle
            → handle.state ≡ PeerState.connected_since conn since
            → contains_key id desired ≡ false
            → Memᴰ (conn, CloseReason.for_removal) result.closed)
        × ((closing : C × CloseReason)
            → Memᴰ closing result.closed
            → IsRemoved set.peers desired closing)
        × (result.hub.names ≡ desired)
        × (result.set.local_id ≡ set.local_id)
  unfolding sync
  sync_lem set hub state id =
      let desired = alive_peers state.peers in
      let gone = removed_peers set.peers desired in
      let gone_key = any_key-removed id set.peers desired in
      (
        ground (
          arith,
          get-spawn_missing id (remove_all set.peers gone) desired,
          get-remove_all id set.peers gone,
          gone_key,
        ),
        has_key-map id gone ∙ gone_key,
        λ conn since handle h s n. closed_of_removed id conn since handle set.peers desired h s n,
        λ closing m. IsRemoved-of_closed closing set.peers desired m,
        refl,
        refl,
      )
