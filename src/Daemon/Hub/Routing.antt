-- ===== src/Daemon/Hub/Routing.antt =====
-- Connections and what comes in over them, and the hub's invariant.
use jj_mesh.Prelude.{
  is_ok, is_err, get, contains_key, get-insert, get-remove, eqb_sound, Ord, nat_ord, bool_ord,
  pair_ord, list_ord, option_ord, reverse_ord, Bool-cases, Option-cases, is_empty, ◌≡◌, ◌⊎◌, inl,
  inr, true, false, Option, none, arith,
}
use jj_mesh.Config.Error.{Kind}
use jj_mesh.Config.Name.{Text, validate_name}
use jj_mesh.Config.RepoId.{RepoId}
use jj_mesh.Config.Membership.Peers.{peer_register}
use jj_mesh.Config.Membership.Repos.{repo_register}
use jj_mesh.Config.Claims.{claims_register}
use jj_mesh.Daemon.Hub.Outbox.{Announce, StatusReport}
use jj_mesh.Daemon.Hub.Orphans.{Orphans}
use jj_mesh.Daemon.Hub.Router.{with_id, forget_peer, set_serving, Serving, PeerSender, HubState}
use jj_mesh.Daemon.Hub.Inbound.{
  cleaned, route_entry, seeded, peer_connected, peer_disconnected, route_orphan, route,
  route_status,
}
use jj_mesh.Daemon.Hub.Caps.{remember_orphan-IsCapped, forget_orphan-IsCapped, IsCapped}
use jj_mesh.Daemon.Hub.Names.{contains-forget_orphan, contains-remember_orphan}
use jj_mesh.Daemon.Hub.Contested.{IsContested-route_entry}
use jj_mesh.Daemon.Hub.WellFormed.{forget_peer-IsRouting, IsRouting}
use jj_mesh.Daemon.Hub.Invariant.{with_id_sound, put_entry-IsRouting}

module _ {E C R : Type 0} ⦃oe : Ord E⦄ where
  -- The orphan store after an announcement of a name that is not registered
  abbrev orphans_after : HubState E C R → E → Announce → Orphans E
  unfolding route_orphan
  orphans_after state from announce = (route_orphan state from announce).orphans

  orphans_after-IsCapped :
      (state : HubState E C R) (from : E) (announce : Announce)
      → IsCapped state.orphans
      → IsCapped (orphans_after state from announce)
  unfolding route_orphan
  orphans_after-IsCapped state from announce c = elim (Bool-cases (is_empty announce.heads)) [
    | inl retraction ↦ rw retraction (forget_orphan-IsCapped state.orphans announce.name from c)
    | inr heads ↦ rw heads (
        remember_orphan-IsCapped state.orphans from announce.name
          (record { id = announce.id; heads = announce.heads }) c)
  ]

  contains-orphans_after :
      (state : HubState E C R) (from : E) (announce : Announce) (name : Text)
      → contains_key name (orphans_after state from announce) ≡ true
      → (contains_key name state.orphans ≡ true) ⊎ (announce.name ≡ name)
  unfolding route_orphan
  contains-orphans_after state from announce name h = ground (
    arith,
    contains-forget_orphan state.orphans from announce.name name,
    contains-remember_orphan state.orphans from announce.name
        (record { id = announce.id; heads = announce.heads }) name,
  )

  orphans_after_apart :
      (state : HubState E C R) (from : E) (announce : Announce)
      → get announce.name state.repos ≡ none
      → ((name : Text)
          → contains_key name state.repos ≡ true
          → contains_key name state.orphans ≡ false)
      → (name : Text) → contains_key name state.repos ≡ true
      → contains_key name (orphans_after state from announce) ≡ false
  orphans_after_apart state from announce absent a name h =
      elim (Bool-cases (contains_key name (orphans_after state from announce))) [
        | inr free ↦ free
        | inl there ↦ ground (arith, contains-orphans_after state from announce name there, a name)
      ]

  route_orphan-IsRouting :
      (state : HubState E C R) (from : E) (announce : Announce)
      → is_ok (validate_name Kind.repo announce.name) ≡ true
      → get announce.name state.repos ≡ none
      → IsRouting state
      → IsRouting (route_orphan state from announce)
  unfolding route_orphan
  route_orphan-IsRouting state from announce valid absent w = record {
    contested = w.contested;
    valid_repos = w.valid_repos;
    valid_orphans = λ name h.
        ground (arith, contains-orphans_after state from announce name h, w.valid_orphans name);
    apart = λ name h. orphans_after_apart state from announce absent w.apart name h;
    orphans_capped = orphans_after-IsCapped state from announce w.orphans_capped;
    reporting = w.reporting;
  }

  -- Whatever a peer announces, the hub keeps its invariant.
  pub route-IsRouting :
      (state : HubState E C R) (from : E) (announce : Announce)
      → IsRouting state
      → IsRouting (route state from announce)
  unfolding route
  route-IsRouting state from announce w =
      elim (Bool-cases (is_err (validate_name Kind.repo announce.name))) [
        | inl invalid ↦ rw (invalid, route) w
        | inr valid ↦ elim (Option-cases (get announce.name state.repos)) [
          | inl absent ↦
              rw (valid, absent, route)
                (route_orphan-IsRouting state from announce (ground arith) absent w)
          | inr (entry, held) ↦
              rw (valid, held, route)
                (put_entry-IsRouting state announce.name entry (route_entry entry from announce) w
                  held
                  (IsContested-route_entry entry from announce
                    (w.contested announce.name entry held)))
        ]
      ]

  pub peer_connected-IsRouting :
      (state : HubState E C R) (from : E) (conn : C)
      → IsRouting state
      → IsRouting (peer_connected state from conn)
  unfolding peer_connected
  peer_connected-IsRouting state from conn v =
      let w = forget_peer-IsRouting state from v in
      let sender : PeerSender E C = record {
        conn = conn;
        outbox = seeded (forget_peer state from);
      } in
      record {
        contested = w.contested;
        valid_repos = w.valid_repos;
        valid_orphans = w.valid_orphans;
        apart = w.apart;
        orphans_capped = w.orphans_capped;
        reporting = λ p h. ground (arith, w.reporting p h, get-insert p from sender state.peers);
      }

  -- The reports of a peer that is forgotten are gone.
  pub peer_disconnected-IsRouting :
      (state : HubState E C R) (from : E)
      → IsRouting state
      → IsRouting (peer_disconnected state from).0
  unfolding peer_disconnected
  peer_disconnected-IsRouting state from v =
      let w = forget_peer-IsRouting state from v in
      record {
        contested = w.contested;
        valid_repos = w.valid_repos;
        valid_orphans = w.valid_orphans;
        apart = w.apart;
        orphans_capped = w.orphans_capped;
        reporting = λ p h. ground (
          arith,
          w.reporting p h,
          get-remove p from state.peers,
          get-remove p from state.reports,
        );
      }

  pub route_status-IsRouting :
      (state : HubState E C R) (from : E) (report : StatusReport)
      → IsRouting state
      → IsRouting (route_status state from report)
  unfolding route_status
  route_status-IsRouting state from report w = elim (Bool-cases (contains_key from state.peers)) [
    | inr gone ↦ rw (gone, route_status) w
    | inl connected ↦
        rw (connected, route_status)
          (record {
            contested = w.contested;
            valid_repos = w.valid_repos;
            valid_orphans = w.valid_orphans;
            apart = w.apart;
            orphans_capped = w.orphans_capped;
            reporting = λ p h. ground (
              arith,
              w.reporting p,
              get-insert p from (cleaned report) state.reports,
              eqb_sound from p,
            );
          })
  ]

  pub set_serving-IsRouting :
      (state : HubState E C R) (name : Text) (id : RepoId) (serving : Option (Serving R))
      → IsRouting state
      → IsRouting (set_serving state name id serving)
  set_serving-IsRouting state name id serving w =
      elim (Option-cases (with_id id (get name state.repos))) [
        | inl absent ↦ rw (absent, set_serving) w
        | inr (entry, found) ↦
            let held = with_id_sound id (get name state.repos) entry found in
            rw (found, set_serving)
              (put_entry-IsRouting state name entry (record entry { serving = serving }) w held
                (w.contested name entry held))
      ]
