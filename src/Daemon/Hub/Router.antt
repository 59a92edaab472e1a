-- ===== src/Daemon/Hub/Router.antt =====
-- src/daemon/hub/mod.rs and the lookup of serve.rs. A connection and an open repo are types `C` and `R`;
-- a sender's task is in its outbox, and aborting it is dropping the outbox. Logging is left out.
use jj_mesh.Prelude.{
  BTreeMap, get, insert, remove, Ord, nat_ord, bool_ord, pair_ord, list_ord, option_ord,
  reverse_ord, if◌then◌else◌, is_some, ℕ, Option, none, some, List, [], ◌∷◌, foldl,
}
use jj_mesh.Config.Name.{Text}
use jj_mesh.Config.RepoId.{RepoId}
use jj_mesh.Config.Membership.Register.{add_u64}
use jj_mesh.Config.Membership.Peers.{peer_register}
use jj_mesh.Config.Membership.Repos.{repo_register}
use jj_mesh.Config.Machine.{text_eq}
use jj_mesh.Config.Claims.{claims_register}
use jj_mesh.Config.State.Defs.{Membership}
use jj_mesh.Daemon.Hub.Inbox.{Heads, empty_inbox, snapshot, forget, Inbox}
use jj_mesh.Daemon.Hub.Outbox.{
  push_announce, push_membership, push_status, Announce, StatusReport, Outbox,
}
use jj_mesh.Daemon.Hub.Values.{map_values}
use jj_mesh.Daemon.Hub.Orphans.{
  Orphans, remember_orphan, forget_orphan_peer, take_orphans, OrphanAnnounce,
}

-- `MAX_SERVES`
abbrev pub max_serves : ℕ
max_serves = 2

pub record Serving (R : Type 0) : Type 0 where
  pub handle : R
  pub permits : ℕ

pub record RepoEntry (E R : Type 0) : Type 0 where
  pub id : RepoId
  pub seq : ℕ
  pub published : Option Heads
  pub inbox : Inbox E
  pub conflicts : BTreeMap E RepoId
  pub serving : Option (Serving R)

pub record PeerSender (E C : Type 0) : Type 0 where
  pub conn : C
  pub outbox : Outbox E

pub record HubState (E C R : Type 0) : Type 0 where
  pub repos : BTreeMap Text (RepoEntry E R)
  pub peers : BTreeMap E (PeerSender E C)
  pub announce_seq : ℕ
  pub orphans : Orphans E
  pub membership : Membership E
  pub status : Option StatusReport
  pub reports : BTreeMap E StatusReport
  pub names : BTreeMap E Text

-- `HubState::default`
abbrev pub empty_hub : {E C R : Type 0} → HubState E C R
empty_hub = record {
  repos = [];
  peers = [];
  announce_seq = 0;
  orphans = [];
  membership = record { peers = []; repos = []; claims = [] };
  status = none;
  reports = [];
  names = [];
}

-- `filter(|entry| &entry.id == id)`
abbrev pub with_id : {E R : Type 0} → RepoId → Option (RepoEntry E R) → Option (RepoEntry E R)
with_id id none = none
with_id id (some entry) = if text_eq entry.id id then some entry else none

-- A fetch: the op heads to obtain, and some that the fetcher has
pub record FetchRequest : Type 0 where
  pub name : Text
  pub id : RepoId
  pub wants : Heads
  pub haves : Heads

abbrev pub conn_of : {E C : Type 0} → Option (PeerSender E C) → Option C
conn_of none = none
conn_of (some sender) = some sender.conn

abbrev pub push_to : {E C : Type 0} → (Outbox E → Outbox E) → PeerSender E C → PeerSender E C
push_to push sender = record sender { outbox = push sender.outbox }

module _ {E : Type 0} ⦃oe : Ord E⦄ where
  -- One peer's entry in `forget_peer`
  abbrev pub forget_in_entry : {R : Type 0} → E → RepoEntry E R → RepoEntry E R
  forget_in_entry from entry = record entry {
    inbox = forget entry.inbox from;
    conflicts = remove from entry.conflicts;
  }

  -- The loop of `register_repo`: an announcement that was held for the name under another id
  abbrev pub note_conflict : RepoId → BTreeMap E RepoId → E × OrphanAnnounce → BTreeMap E RepoId
  note_conflict id conflicts e =
      if text_eq e.1.id id then conflicts else insert e.0 e.1.id conflicts

  -- The loop of `unregister_repo` over the snapshot
  unfoldable pub demote : RepoId → Text → Orphans E → List (E × Heads) → Orphans E
  demote id name orphans [] = orphans
  demote id name orphans (e ∷ rest) =
      demote id name (remember_orphan orphans e.0 name (record { id = id; heads = e.1 })).0 rest

module _ {E C R : Type 0} ⦃oe : Ord E⦄ where
  abbrev pub broadcast : HubState E C R → (Outbox E → Outbox E) → HubState E C R
  broadcast state push = record state { peers = map_values (push_to push) state.peers }

  abbrev pub forget_peer : HubState E C R → E → HubState E C R
  forget_peer state from = record state {
    repos = map_values (forget_in_entry from) state.repos;
    orphans = forget_orphan_peer state.orphans from;
    reports = remove from state.reports;
  }

  unfoldable pub register_repo : HubState E C R → Text → RepoId → HubState E C R
  register_repo state name id =
      let (left, held) = take_orphans state.orphans name in
      record state {
        orphans = left;
        repos =
            insert name
              (record {
                id = id;
                seq = 0;
                published = none;
                inbox = empty_inbox;
                conflicts = foldl (note_conflict id) [] held;
                serving = none;
              })
              state.repos;
      }

  abbrev pub set_serving : HubState E C R → Text → RepoId → Option (Serving R) → HubState E C R
  set_serving state name id serving = elim (with_id id (get name state.repos)) [
    | none ↦ state
    | some entry ↦ record state {
      repos = insert name (record entry { serving = serving }) state.repos;
    }
  ]

  unfoldable pub repo_opened : HubState E C R → Text → RepoId → R → HubState E C R
  repo_opened state name id handle =
      set_serving state name id (some (record { handle = handle; permits = max_serves }))

  unfoldable pub repo_closed : HubState E C R → Text → RepoId → HubState E C R
  repo_closed state name id = set_serving state name id none

  -- `SyncHub::connection`
  unfoldable pub connection : HubState E C R → E → Option C
  connection state from = conn_of (get from state.peers)

  abbrev pub retraction_of : HubState E C R → Text → RepoEntry E R → HubState E C R
  retraction_of state name entry =
      let seq = add_u64 state.announce_seq 1 in
      let announce : Announce = record { name = name; id = entry.id; seq = seq; heads = [] } in
      broadcast (record state { announce_seq = seq }) (λ outbox. push_announce outbox announce)

  -- `SyncHub::unregister_repo`
  unfoldable pub hub_unregister_repo : HubState E C R → Text → HubState E C R
  hub_unregister_repo state name = elim (get name state.repos) [
    | none ↦ state
    | some entry ↦
        let demoted = record state {
          repos = remove name state.repos;
          orphans = demote entry.id name state.orphans (snapshot entry.inbox);
        } in
        if is_some entry.published then retraction_of demoted name entry else demoted
  ]

  unfoldable pub publish : HubState E C R → Text → RepoId → Heads → HubState E C R
  publish state name id heads = elim (with_id id (get name state.repos)) [
    | none ↦ state
    | some entry ↦
        let seq = add_u64 state.announce_seq 1 in
        let announce : Announce = record { name = name; id = entry.id; seq = seq; heads = heads } in
        broadcast
          (record state {
            announce_seq = seq;
            repos = insert name (record entry { seq = seq; published = some heads }) state.repos;
          })
          (λ outbox. push_announce outbox announce)
  ]

  unfoldable pub publish_status : HubState E C R → StatusReport → HubState E C R
  publish_status state report = record (broadcast state (λ outbox. push_status outbox report)) {
    status = some report;
  }

  unfoldable pub publish_membership : HubState E C R → Membership E → HubState E C R
  publish_membership state membership =
      record (broadcast state (λ outbox. push_membership outbox membership)) {
        membership = membership;
      }

  abbrev pub set_peer_names : HubState E C R → BTreeMap E Text → HubState E C R
  set_peer_names state names = record state { names = names }
