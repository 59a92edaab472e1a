-- ===== src/Daemon/Peers/Defs.antt =====
-- `PeerSet` and its operations.
use jj_mesh.Prelude.{
  BTreeMap, get, contains_key, insert, remove, Ord, nat_ord, bool_ord, pair_ord, list_ord,
  option_ord, reverse_ord, ltb, if◌then◌else◌, length, ℕ, ◌-◌, Option, none, some, List, [], ◌∷◌,
  ◌++◌, map,
}
use jj_mesh.Config.Name.{Text}
use jj_mesh.Config.Membership.Peers.{peer_register}
use jj_mesh.Config.Membership.Repos.{repo_register}
use jj_mesh.Config.Claims.{claims_register}
use jj_mesh.Config.State.Defs.{alive_peers, MeshState}
use jj_mesh.Daemon.Hub.Router.{set_peer_names, HubState}
use jj_mesh.Daemon.Hub.Inbound.{peer_disconnected}

-- The reason that is sent when a connection is closed
pub data CloseReason : Type 0 where
  for_unauthorized for_busy for_removal for_duplicate : CloseReason

pub data PeerState (C : Type 0) : Type 0 where
  connecting : ℕ → PeerState C
  connected_since : C → ℕ → PeerState C
  backing_off : ℕ → Text → PeerState C

-- The inbound connections that wait in the channel of the task
pub record PeerHandle (C : Type 0) : Type 0 where
  pub state : PeerState C
  pub inbound : List C

abbrev pub inbound_capacity : ℕ
inbound_capacity = 4

pub record PeerSet (E C : Type 0) : Type 0 where
  pub local_id : E
  pub peers : BTreeMap E (PeerHandle C)

-- `spawn_peer`
abbrev pub spawn_peer : {C : Type 0} → PeerHandle C
spawn_peer = record { state = PeerState.connecting 0; inbound = [] }

abbrev pub Closed : Type 0 → Type 0
Closed C = List (C × CloseReason)

-- `PeerHandle::shutdown`: the connection that is closed
abbrev pub shutdown : {C : Type 0} → PeerState C → Closed C
shutdown (PeerState.connected_since conn since) = (conn, CloseReason.for_removal) ∷ []
shutdown (PeerState.connecting failures) = []
shutdown (PeerState.backing_off until error) = []

-- What `sync` does beside the new set and hub: it closes connections, and waits for tasks to end, each of
-- which `task_ended` then cleans up after.
pub record Synced (E C R : Type 0) : Type 0 where
  pub set : PeerSet E C
  pub hub : HubState E C R
  pub closed : Closed C
  pub ending : List E

-- The state of a peer for the control socket
pub data ConnectionStatus (P : Type 0) : Type 0 where
  status_connecting : ℕ → ConnectionStatus P
  status_connected : Option P → ℕ → ConnectionStatus P
  status_backoff : ℕ → Text → ConnectionStatus P

pub record PeerStatusReport (E P : Type 0) : Type 0 where
  pub name : Text
  pub endpoint : E
  pub connection : ConnectionStatus P

-- The path of a connection, and the time, for `statuses`
abbrev pub connection_status :
    {C P : Type 0} → (C → Option P) → ℕ → PeerState C → ConnectionStatus P
connection_status path now (PeerState.connecting failures) =
    ConnectionStatus.status_connecting failures
connection_status path now (PeerState.backing_off until error) =
    ConnectionStatus.status_backoff (until - now) error
connection_status path now (PeerState.connected_since conn since) =
    ConnectionStatus.status_connected (path conn) (now - since)

module _ {E C : Type 0} ⦃oe : Ord E⦄ where
  -- The peers that are managed and not desired
  unfoldable pub removed_peers :
      BTreeMap E (PeerHandle C) → BTreeMap E Text → List (E × PeerHandle C)
  removed_peers [] desired = []
  removed_peers ((id, handle) ∷ peers) desired =
      if contains_key id desired
      then removed_peers peers desired
      else (id, handle) ∷ removed_peers peers desired

  abbrev pub closings : List (E × PeerHandle C) → Closed C
  closings [] = []
  closings (e ∷ es) = shutdown ((e.1).state) ++ closings es

  abbrev pub remove_all :
      BTreeMap E (PeerHandle C) → List (E × PeerHandle C) → BTreeMap E (PeerHandle C)
  remove_all peers [] = peers
  remove_all peers (e ∷ es) = remove_all (remove (e.0) peers) es

  -- `peers.entry(id).or_insert_with(…)`, for each desired peer
  unfoldable pub spawn_missing :
      BTreeMap E (PeerHandle C) → BTreeMap E Text → BTreeMap E (PeerHandle C)
  spawn_missing peers [] = peers
  spawn_missing peers ((id, name) ∷ desired) =
      spawn_missing (if contains_key id peers then peers else insert id spawn_peer peers) desired

  -- `PeerSet::sync`
  unfoldable pub sync : {R : Type 0} → PeerSet E C → HubState E C R → MeshState E → Synced E C R
  sync set hub state =
      let desired = alive_peers state.peers in
      let gone = removed_peers set.peers desired in
      record {
        set = record set { peers = spawn_missing (remove_all set.peers gone) desired };
        hub = set_peer_names hub desired;
        closed = closings gone;
        ending = map (λ e. e.0) gone;
      }

  -- The clean-up once an aborted task is gone
  abbrev pub task_ended : {R : Type 0} → HubState E C R → E → HubState E C R
  task_ended hub id = (peer_disconnected hub id).0

  -- `route_inbound`: the set, and what is closed
  abbrev pub try_send : PeerSet E C → E → C → Option (PeerHandle C) → PeerSet E C × Closed C
  try_send set id conn none = (set, (conn, CloseReason.for_unauthorized) ∷ [])
  try_send set id conn (some handle) =
      if ltb (length handle.inbound) inbound_capacity
      then (
        record set {
          peers = insert id (record handle { inbound = handle.inbound ++ conn ∷ [] }) set.peers;
        },
        [],
      )
      else (set, (conn, CloseReason.for_busy) ∷ [])

  unfoldable pub route_inbound : PeerSet E C → E → C → PeerSet E C × Closed C
  route_inbound set id conn = try_send set id conn (get id set.peers)

  -- `statuses`
  unfoldable pub statuses :
      {P : Type 0}
      → (E → Text)
      → (C → Option P)
      → ℕ
      → BTreeMap E (PeerHandle C)
      → List (PeerStatusReport E P)
  statuses name path now [] = []
  statuses name path now ((id, handle) ∷ peers) =
      record { name = name id; endpoint = id; connection = connection_status path now handle.state }
      ∷ statuses name path now peers
