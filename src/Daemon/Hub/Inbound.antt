-- ===== src/Daemon/Hub/Inbound.antt =====
-- src/daemon/hub/mod.rs: what a connection does to the hub, and what comes in over it; the lookup of serve.rs.
use jj_mesh.Prelude.{
  is_ok, is_err, Result, BTreeMap, keys, get, contains_key, insert, remove, Ord, nat_ord, bool_ord,
  pair_ord, list_ord, option_ord, reverse_ord, if◌then◌else◌, is_empty, keep, ℕ, not, Option, none,
  some, List, [], ◌∷◌, ◌++◌, map,
}
use jj_mesh.Config.Error.{Kind}
use jj_mesh.Config.Name.{Text, validate_name, sanitize}
use jj_mesh.Config.RepoId.{RepoId}
use jj_mesh.Config.Membership.Peers.{peer_register}
use jj_mesh.Config.Membership.Repos.{repo_register}
use jj_mesh.Config.Machine.{text_eq}
use jj_mesh.Config.Claims.{claims_register}
use jj_mesh.Daemon.Hub.Inbox.{Heads, offer, retract}
use jj_mesh.Daemon.Hub.Outbox.{
  empty_outbox, push_announce, push_membership, push_status, Announce, StatusReport, Outbox,
}
use jj_mesh.Daemon.Hub.Orphans.{
  remember_orphan, forget_orphan, clone_sources, CloneError, CloneSource,
}
use jj_mesh.Daemon.Hub.Router.{conn_of, forget_peer, Serving, RepoEntry, HubState, FetchRequest}

-- A report with clean strings and valid repo names
abbrev pub sanitize_option : Option Text → Option Text
sanitize_option none = none
sanitize_option (some text) = some (sanitize text)

abbrev pub cleaned : StatusReport → StatusReport
cleaned report = record {
  daemon_version = sanitize report.daemon_version;
  jj_version = sanitize_option report.jj_version;
  repos = keep (λ health. is_ok (validate_name Kind.repo health.name)) report.repos;
}

-- What a fetch request names, refused unless the id is that of the repo here
abbrev pub servable : {E R : Type 0} → RepoId → Option (RepoEntry E R) → Option (Serving R)
servable id none = none
servable id (some entry) = if text_eq entry.id id then entry.serving else none

abbrev pub conflict_pairs : {E R : Type 0} → BTreeMap Text (RepoEntry E R) → List (Text × E)
conflict_pairs [] = []
conflict_pairs (e ∷ m) = map (λ from. (e.0, from)) (keys e.1.conflicts) ++ conflict_pairs m

-- The published announcements that are replayed to a new connection
abbrev pub replay_published : {E : Type 0} → Text → RepoId → ℕ → Option Heads → Outbox E → Outbox E
replay_published name id seq none outbox = outbox
replay_published name id seq (some heads) outbox =
    push_announce outbox (record { name = name; id = id; seq = seq; heads = heads })

unfoldable pub replay : {E R : Type 0} → BTreeMap Text (RepoEntry E R) → Outbox E → Outbox E
replay [] outbox = outbox
replay (e ∷ repos) outbox = replay repos (replay_published e.0 e.1.id e.1.seq e.1.published outbox)

abbrev pub seed_status : {E : Type 0} → Option StatusReport → Outbox E → Outbox E
seed_status none outbox = outbox
seed_status (some report) outbox = push_status outbox report

module _ {E : Type 0} ⦃oe : Ord E⦄ where
  -- An announcement of a name that is
  unfoldable pub route_entry : {R : Type 0} → RepoEntry E R → E → Announce → RepoEntry E R
  route_entry entry from announce =
      if is_empty announce.heads
      then record entry {
        conflicts = remove from entry.conflicts;
        inbox = retract entry.inbox from announce.seq;
      }
      else if not (text_eq entry.id announce.id)
      then record entry { conflicts = insert from announce.id entry.conflicts }
      else record entry {
        conflicts = remove from entry.conflicts;
        inbox = offer entry.inbox from announce.seq announce.heads;
      }

module _ {E C R : Type 0} ⦃oe : Ord E⦄ where
  -- The outbox of a new connection
  abbrev pub seeded : HubState E C R → Outbox E
  seeded state =
      replay state.repos (seed_status state.status (push_membership empty_outbox state.membership))

  unfoldable pub peer_connected : HubState E C R → E → C → HubState E C R
  peer_connected state from conn =
      let state' = forget_peer state from in
      record state' {
        peers = insert from (record { conn = conn; outbox = seeded state' }) state'.peers;
      }

  -- The connection that is closed is returned.
  unfoldable pub peer_disconnected : HubState E C R → E → HubState E C R × Option C
  peer_disconnected state from =
      let state' = forget_peer state from in
      (record state' { peers = remove from state'.peers }, conn_of (get from state'.peers))

  -- An announcement of a name that is not registered here
  unfoldable pub route_orphan : HubState E C R → E → Announce → HubState E C R
  route_orphan state from announce = record state {
    orphans =
        if is_empty announce.heads
        then forget_orphan state.orphans announce.name from
        else (remember_orphan state.orphans from announce.name
            (record { id = announce.id; heads = announce.heads })).0;
  }

  unfoldable pub route : HubState E C R → E → Announce → HubState E C R
  route state from announce =
      if is_err (validate_name Kind.repo announce.name)
      then state
      else elim (get announce.name state.repos) [
        | none ↦ route_orphan state from announce
        | some entry ↦ record state {
          repos = insert announce.name (route_entry entry from announce) state.repos;
        }
      ]

  unfoldable pub conflicts_here : HubState E C R → List (Text × E)
  conflicts_here state = conflict_pairs state.repos

  unfoldable pub route_status : HubState E C R → E → StatusReport → HubState E C R
  route_status state from report =
      if contains_key from state.peers
      then record state { reports = insert from (cleaned report) state.reports }
      else state

  -- `peer_reports`
  abbrev pub peer_reports : HubState E C R → List (E × StatusReport)
  peer_reports state = state.reports

  -- `peer_name`; `fmt_short` prints an endpoint id.
  unfoldable pub managed_name : (E → Text) → HubState E C R → E → Text
  managed_name fmt_short state from = elim (get from state.names) [
    | none ↦ fmt_short from
    | some name ↦ name
  ]

  unfoldable pub lookup_serving : HubState E C R → FetchRequest → Option (Serving R)
  lookup_serving state request = servable request.id (get request.name state.repos)

  -- `SyncHub::clone_sources`
  abbrev pub hub_clone_sources :
      HubState E C R → Text → Result CloneError (RepoId × List (CloneSource E))
  hub_clone_sources state name =
      clone_sources (λ from. contains_key from state.peers) state.orphans name
