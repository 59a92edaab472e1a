-- ===== src/Daemon/Peers/Duplicates.antt =====
-- `connected`: the connection that is held, and the inbound connections that come meanwhile.
use mathlib.Core.List.{append-nil, append_assoc}
use jj_mesh.Prelude.{
  get-insert, gtb, eqb_refl, gtb_asymm, Ord, nat_ord, bool_ord, pair_ord, list_ord, option_ord,
  reverse_ord, if◌then◌else◌, Bool-cases, ℕ, ◌≡◌, refl, sym, ap, ◌∙◌, inl, inr, Bool, true, false,
  ◌&&◌, some, List, [], ◌∷◌, ◌++◌,
}
use jj_mesh.Config.Membership.Peers.{peer_register}
use jj_mesh.Config.Membership.Repos.{repo_register}
use jj_mesh.Config.Claims.{claims_register}
use jj_mesh.Daemon.Hub.Router.{forget_peer, connection, PeerSender, HubState}
use jj_mesh.Daemon.Hub.Inbound.{seeded, peer_connected, peer_disconnected}

-- The variables of the loop: the connection, whether it is outbound, since when, what was closed as a
-- duplicate, and the hub, in which the connection stands
pub record Holding (E C R : Type 0) : Type 0 where
  pub conn : C
  pub outbound : Bool
  pub since : ℕ
  pub closed : List C
  pub hub : HubState E C R

-- The connections that came, in order
abbrev pub conns_of : {C : Type 0} → List (ℕ × C) → List C
conns_of [] = []
conns_of ((now, new) ∷ rest) = new ∷ conns_of rest

abbrev pub last_of : {C : Type 0} → C → List (ℕ × C) → C
last_of conn [] = conn
last_of conn ((now, new) ∷ rest) = last_of new rest

-- Those that are closed when the last one is kept
abbrev pub before_last : {C : Type 0} → C → List (ℕ × C) → List C
before_last conn [] = []
before_last conn ((now, new) ∷ rest) = conn ∷ before_last new rest

module _ {E C R : Type 0} ⦃oe : Ord E⦄ (local peer : E) where
  -- The start of the loop
  unfoldable pub hold : HubState E C R → ℕ → C × Bool → Holding E C R
  hold hub now (conn, outbound) = record {
    conn = conn;
    outbound = outbound;
    since = now;
    closed = [];
    hub = peer_connected hub peer conn;
  }

  -- An inbound connection arrives: the one that the lower id dialed stays.
  unfoldable pub inbound_arrives : Holding E C R → ℕ → C → Holding E C R
  inbound_arrives h now new =
      if h.outbound && gtb peer local then record h { closed = h.closed ++ new ∷ [] } else record {
        conn = new;
        outbound = false;
        since = now;
        closed = h.closed ++ h.conn ∷ [];
        hub = peer_connected h.hub peer new;
      }

  -- The end of the loop, when the connection is closed
  abbrev pub hang_up : Holding E C R → HubState E C R
  hang_up h = (peer_disconnected h.hub peer).0

  unfoldable pub arrivals : Holding E C R → List (ℕ × C) → Holding E C R
  arrivals h [] = h
  arrivals h ((now, new) ∷ rest) = arrivals (inbound_arrives h now new) rest

  connection-peer_connected :
      (hub : HubState E C R) (conn : C) → connection (peer_connected hub peer conn) peer ≡ some conn
  unfolding peer_connected connection
  connection-peer_connected hub conn =
      let state = forget_peer hub peer in
      let sender : PeerSender E C = record { conn = conn; outbox = seeded state } in
      rw (get-insert peer peer sender state.peers, eqb_refl peer) refl

  -- The hub has the connection that is held.
  abbrev pub IsRegistered : Holding E C R → Type 0
  IsRegistered h = connection h.hub peer ≡ some h.conn

  pub hold-IsRegistered :
      (hub : HubState E C R) (now : ℕ) (c : C × Bool) → IsRegistered (hold hub now c)
  unfolding hold
  hold-IsRegistered hub now (conn, outbound) = connection-peer_connected hub conn

  inbound_arrives-IsRegistered :
      (h : Holding E C R) (now : ℕ) (new : C)
      → IsRegistered h
      → IsRegistered (inbound_arrives h now new)
  unfolding inbound_arrives
  inbound_arrives-IsRegistered h now new r = elim (Bool-cases (h.outbound && gtb peer local)) [
    | inl stays ↦ rw stays r
    | inr yields ↦ rw yields (connection-peer_connected h.hub new)
  ]

  pub arrivals-IsRegistered :
      (h : Holding E C R) (news : List (ℕ × C)) → IsRegistered h → IsRegistered (arrivals h news)
  unfolding arrivals
  arrivals-IsRegistered h [] r = r
  arrivals-IsRegistered h ((now, new) ∷ rest) r =
      arrivals-IsRegistered (inbound_arrives h now new) rest
        (inbound_arrives-IsRegistered h now new r)

  stays : Holding E C R → C → Holding E C R
  stays h new = record h { closed = h.closed ++ new ∷ [] }

  yields : Holding E C R → ℕ → C → Holding E C R
  yields h now new = record {
    conn = new;
    outbound = false;
    since = now;
    closed = h.closed ++ h.conn ∷ [];
    hub = peer_connected h.hub peer new;
  }

  inbound_stays :
      (h : Holding E C R) (now : ℕ) (new : C)
      → (h.outbound && gtb peer local) ≡ true
      → inbound_arrives h now new ≡ stays h new
  unfolding inbound_arrives stays
  inbound_stays h now new k = rw k refl

  inbound_yields :
      (h : Holding E C R) (now : ℕ) (new : C)
      → (h.outbound && gtb peer local) ≡ false
      → inbound_arrives h now new ≡ yields h now new
  unfolding inbound_arrives yields
  inbound_yields h now new k = rw k refl

  arrivals_stay :
      (h : Holding E C R) (news : List (ℕ × C))
      → (h.outbound && gtb peer local) ≡ true
      → ((arrivals h news).conn ≡ h.conn) × ((arrivals h news).closed ≡ h.closed ++ conns_of news)
  unfolding arrivals stays
  arrivals_stay h [] k = (refl, sym (append-nil h.closed))
  arrivals_stay h ((now, new) ∷ rest) k =
      let (c, d) = arrivals_stay (stays h new) rest k in
      rw (inbound_stays h now new k, arrivals)
        (c, d ∙ append_assoc h.closed (new ∷ []) (conns_of rest))

  arrivals_yield :
      (h : Holding E C R) (news : List (ℕ × C))
      → (h.outbound && gtb peer local) ≡ false
      → ((arrivals h news).conn ≡ last_of h.conn news)
        × ((arrivals h news).closed ≡ h.closed ++ before_last h.conn news)
  unfolding arrivals yields
  arrivals_yield h [] k = (refl, sym (append-nil h.closed))
  arrivals_yield h ((now, new) ∷ rest) k =
      let (c, d) = arrivals_yield (yields h now new) rest refl in
      rw (inbound_yields h now new k, arrivals)
        (c, d ∙ append_assoc h.closed (h.conn ∷ []) (before_last new rest))

  -- While a connection is held, every connection that comes or is held is either the one held in the end, which
  -- the hub has, or is closed as a duplicate: the lower id keeps the connection that it dialed and closes all that
  -- come, in any other case the last that comes is kept.
  pub arrivals_lem :
      (hub : HubState E C R) (now : ℕ) (conn : C) (outbound : Bool) (news : List (ℕ × C))
      → let h = arrivals (hold hub now (conn, outbound)) news in
        (connection h.hub peer ≡ some h.conn)
        × ((outbound && gtb peer local) ≡ true → (h.conn ≡ conn) × (h.closed ≡ conns_of news))
        × ((outbound && gtb peer local) ≡ false
            → (h.conn ≡ last_of conn news) × (h.closed ≡ before_last conn news))
  unfolding hold
  arrivals_lem hub now conn outbound news =
      let h : Holding E C R = hold hub now (conn, outbound) in
      (
        arrivals-IsRegistered h news (hold-IsRegistered hub now (conn, outbound)),
        λ k. arrivals_stay h news k,
        λ k. arrivals_yield h news k,
      )

-- When two peers have dialed each other and each then gets the other's connection, both end with the one that
-- the lower id dialed, which their hubs have, and both close just the other one.
pub duplicates_agree :
    {E C R : Type 0} ⦃oe : Ord E⦄ (low high : E) (low_hub high_hub : HubState E C R)
    (by_low by_high : C) (t₁ t₂ t₃ t₄ : ℕ)
    → gtb high low ≡ true
    → let l = inbound_arrives low high (hold low high low_hub t₁ (by_low, true)) t₂ by_high in
      let h = inbound_arrives high low (hold high low high_hub t₃ (by_high, true)) t₄ by_low in
      (l.conn ≡ by_low)
      × (h.conn ≡ by_low)
      × (l.closed ≡ by_high ∷ [])
      × (h.closed ≡ by_high ∷ [])
      × (connection l.hub high ≡ some by_low)
      × (connection h.hub low ≡ some by_low)
unfolding arrivals
duplicates_agree low high low_hub high_hub by_low by_high t₁ t₂ t₃ t₄ k =
    let (l_reg, l_stay, _) = arrivals_lem low high low_hub t₁ by_low true ((t₂, by_high) ∷ []) in
    let (h_reg, _, h_yield) = arrivals_lem high low high_hub t₃ by_high true ((t₄, by_low) ∷ []) in
    let (l_conn, l_closed) = l_stay k in
    let (h_conn, h_closed) = h_yield (gtb_asymm high low k) in
    (l_conn, h_conn, l_closed, h_closed, l_reg ∙ ap some l_conn, h_reg ∙ ap some h_conn)
