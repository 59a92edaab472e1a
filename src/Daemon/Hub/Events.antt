-- ===== src/Daemon/Hub/Events.antt =====
-- The life of the hub: any sequence of what the peer tasks, the repo tasks and the store do to it.
use jj_mesh.Prelude.{
  is_ok, BTreeMap, get, insert, Ord, nat_ord, bool_ord, pair_ord, list_ord, option_ord, reverse_ord,
  Option-cases, ◌≡◌, refl, inl, inr, true, none, some, arith,
}
use jj_mesh.Config.Error.{Kind}
use jj_mesh.Config.Name.{Text, validate_name}
use jj_mesh.Config.RepoId.{RepoId}
use jj_mesh.Config.Membership.Peers.{peer_register}
use jj_mesh.Config.Membership.Repos.{repo_register}
use jj_mesh.Config.Claims.{claims_register}
use jj_mesh.Config.State.Defs.{Membership}
use jj_mesh.Daemon.Hub.Inbox.{Heads, Inbox}
use jj_mesh.Daemon.Hub.Outbox.{push_membership, push_status, Announce, StatusReport}
use jj_mesh.Daemon.Hub.Router.{
  max_serves, empty_hub, register_repo, repo_opened, repo_closed, hub_unregister_repo, publish,
  publish_status, publish_membership, set_peer_names, HubState,
}
use jj_mesh.Daemon.Hub.Inbound.{peer_connected, peer_disconnected, route, route_status}
use jj_mesh.Daemon.Hub.WellFormed.{IsRouting}
use jj_mesh.Daemon.Hub.Invariant.{
  put_entry-IsRouting, broadcast-IsRouting, register_repo-IsRouting, hub_unregister_repo-IsRouting,
  publish-IsRouting,
}
use jj_mesh.Daemon.Hub.Routing.{
  route-IsRouting, peer_connected-IsRouting, peer_disconnected-IsRouting, route_status-IsRouting,
  set_serving-IsRouting,
}

module _ {E C R : Type 0} ⦃oe : Ord E⦄ where
  -- A repo task that drains the inbox of its repo, or puts an announcement back
  abbrev pub with_inbox : HubState E C R → Text → (Inbox E → Inbox E) → HubState E C R
  with_inbox state name f = elim (get name state.repos) [
    | none ↦ state
    | some entry ↦ record state {
      repos = insert name (record entry { inbox = f entry.inbox }) state.repos;
    }
  ]

  -- One event. A name is registered only when it is valid, as `MeshState::add_repo` sees to.
  pub data Event : HubState E C R → HubState E C R → Type 0 where
    repo_registered :
        {s : HubState E C R} (name : Text) (id : RepoId)
        → is_ok (validate_name Kind.repo name) ≡ true
        → Event s (register_repo s name id)
    repo_unregistered : {s : HubState E C R} (name : Text) → Event s (hub_unregister_repo s name)
    opened :
        {s : HubState E C R} (name : Text) (id : RepoId) (handle : R)
        → Event s (repo_opened s name id handle)
    closed : {s : HubState E C R} (name : Text) (id : RepoId) → Event s (repo_closed s name id)
    heads_published :
        {s : HubState E C R} (name : Text) (id : RepoId) (heads : Heads)
        → Event s (publish s name id heads)
    status_published :
        {s : HubState E C R} (report : StatusReport) → Event s (publish_status s report)
    membership_published :
        {s : HubState E C R} (m : Membership E) → Event s (publish_membership s m)
    names_set : {s : HubState E C R} (names : BTreeMap E Text) → Event s (set_peer_names s names)
    peer_joined : {s : HubState E C R} (from : E) (conn : C) → Event s (peer_connected s from conn)
    peer_left : {s : HubState E C R} (from : E) → Event s (peer_disconnected s from).0
    announced_to :
        {s : HubState E C R} (from : E) (announce : Announce) → Event s (route s from announce)
    reported :
        {s : HubState E C R} (from : E) (report : StatusReport)
        → Event s (route_status s from report)
    inbox_used :
        {s : HubState E C R} (name : Text) (f : Inbox E → Inbox E) → Event s (with_inbox s name f)

  pub data Run (start : HubState E C R) : HubState E C R → Type 0 where
    started : Run start start
    after : {s t : HubState E C R} → Run start s → Event s t → Run start t

  with_inbox-IsRouting :
      (s : HubState E C R) (name : Text) (f : Inbox E → Inbox E)
      → IsRouting s
      → IsRouting (with_inbox s name f)
  with_inbox-IsRouting s name f w = elim (Option-cases (get name s.repos)) [
    | inl absent ↦ rw (absent, with_inbox) w
    | inr (entry, held) ↦
        rw (held, with_inbox)
          (put_entry-IsRouting s name entry (record entry { inbox = f entry.inbox }) w held
            (w.contested name entry held))
  ]

  publish_status-IsRouting :
      (s : HubState E C R) (report : StatusReport)
      → IsRouting s
      → IsRouting (publish_status s report)
  unfolding publish_status
  publish_status-IsRouting s report v =
      let w = broadcast-IsRouting s (λ outbox. push_status outbox report) v in
      record {
        contested = w.contested;
        valid_repos = w.valid_repos;
        valid_orphans = w.valid_orphans;
        apart = w.apart;
        orphans_capped = w.orphans_capped;
        reporting = w.reporting;
      }

  publish_membership-IsRouting :
      (s : HubState E C R) (m : Membership E) → IsRouting s → IsRouting (publish_membership s m)
  unfolding publish_membership
  publish_membership-IsRouting s m v =
      let w = broadcast-IsRouting s (λ outbox. push_membership outbox m) v in
      record {
        contested = w.contested;
        valid_repos = w.valid_repos;
        valid_orphans = w.valid_orphans;
        apart = w.apart;
        orphans_capped = w.orphans_capped;
        reporting = w.reporting;
      }

  set_peer_names-IsRouting :
      (s : HubState E C R) (names : BTreeMap E Text)
      → IsRouting s
      → IsRouting (set_peer_names s names)
  set_peer_names-IsRouting s names w = record {
    contested = w.contested;
    valid_repos = w.valid_repos;
    valid_orphans = w.valid_orphans;
    apart = w.apart;
    orphans_capped = w.orphans_capped;
    reporting = w.reporting;
  }

  Event-IsRouting : {s t : HubState E C R} → Event s t → IsRouting s → IsRouting t
  unfolding repo_opened repo_closed
  Event-IsRouting {s} (repo_registered name id valid) w = register_repo-IsRouting s name id valid w
  Event-IsRouting {s} (repo_unregistered name) w = hub_unregister_repo-IsRouting s name w
  Event-IsRouting {s} (opened name id handle) w =
      set_serving-IsRouting s name id (some (record { handle = handle; permits = max_serves })) w
  Event-IsRouting {s} (closed name id) w = set_serving-IsRouting s name id none w
  Event-IsRouting {s} (heads_published name id heads) w = publish-IsRouting s name id heads w
  Event-IsRouting {s} (status_published report) w = publish_status-IsRouting s report w
  Event-IsRouting {s} (membership_published m) w = publish_membership-IsRouting s m w
  Event-IsRouting {s} (names_set names) w = set_peer_names-IsRouting s names w
  Event-IsRouting {s} (peer_joined from conn) w = peer_connected-IsRouting s from conn w
  Event-IsRouting {s} (peer_left from) w = peer_disconnected-IsRouting s from w
  Event-IsRouting {s} (announced_to from announce) w = route-IsRouting s from announce w
  Event-IsRouting {s} (reported from report) w = route_status-IsRouting s from report w
  Event-IsRouting {s} (inbox_used name f) w = with_inbox-IsRouting s name f w

  empty-IsRouting : IsRouting {E = E} {C = C} {R = R} empty_hub
  unfolding get
  empty-IsRouting = record {
    contested = λ name entry h. ground arith;
    valid_repos = λ name h. ground arith;
    valid_orphans = λ name h. ground arith;
    apart = λ name h. refl;
    orphans_capped = record { sorted = tt; capped = λ p. omega arith };
    reporting = λ p h. ground arith;
  }

  -- Whatever happens to the hub from the daemon's start on: a conflict is about another id than that of the
  -- repo here, all names are valid, no name is both registered and orphaned, no peer is tracked under more
  -- than 64 unregistered names, and only connected peers have a report.
  pub Run-IsRouting : {t : HubState E C R} → Run empty_hub t → IsRouting t
  Run-IsRouting started = empty-IsRouting
  Run-IsRouting (after run event) = Event-IsRouting event (Run-IsRouting run)
