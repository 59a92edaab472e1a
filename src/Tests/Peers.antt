-- ===== src/Tests/Peers.antt =====
-- The tasks of peers at concrete values. A connection is a number.
use mathlib.Core.List.{Memᴰ}
use jj_mesh.Prelude.{
  ok, err, BTreeMap, get, contains_key, gtb, nat_ord, bool_ord, pair_ord, list_ord, option_ord,
  reverse_ord, ℕ, ◌≡◌, refl, true, false, not, ◌&&◌, none, some, List, [], ◌∷◌, arith,
}
use jj_mesh.Config.Name.{Text}
use jj_mesh.Config.Membership.Peers.{peer_register}
use jj_mesh.Config.Membership.Repos.{repo_register}
use jj_mesh.Config.Claims.{claims_register}
use jj_mesh.Config.State.Defs.{alive_peers}
use jj_mesh.Daemon.Hub.Router.{empty_hub, connection, HubState}
use jj_mesh.Daemon.Peers.Defs.{sync, CloseReason, PeerState, PeerHandle, PeerSet, Synced}
use jj_mesh.Daemon.Peers.Alignment.{handle_after, has_key, sync_lem, IsRemoved}
use jj_mesh.Daemon.Peers.Task.{
  backoff_max, start_task, establish, run_round, run_rounds, Landing, PeerTask, Round,
}
use jj_mesh.Daemon.Peers.Retries.{WaitsOut, run_rounds_lem, IsWaiting}
use jj_mesh.Daemon.Peers.Duplicates.{
  conns_of, last_of, before_last, hold, inbound_arrives, arrivals, arrivals_lem, duplicates_agree,
  Holding,
}
use jj_mesh.Tests.Data.{with_bob}

abbrev held_handle : PeerHandle ℕ
held_handle = record { state = PeerState.connected_since 9 5; inbound = [] }

-- The peer 3 is managed, and not in the mesh state, which has the peer 2.
abbrev managed : PeerSet ℕ ℕ
managed = record { local_id = 1; peers = (3, held_handle) ∷ [] }

abbrev desired : BTreeMap ℕ Text
desired = alive_peers with_bob.peers

abbrev synced : Synced ℕ ℕ ℕ
synced = sync managed empty_hub with_bob

sync_lem_example :
    (get 3 synced.set.peers ≡ handle_after (get 3 managed.peers) (contains_key 3 desired))
    × (has_key 3 synced.ending ≡ (contains_key 3 managed.peers && not (contains_key 3 desired)))
    × ((conn : ℕ) (since : ℕ) (handle : PeerHandle ℕ)
        → get 3 managed.peers ≡ some handle
        → handle.state ≡ PeerState.connected_since conn since
        → contains_key 3 desired ≡ false
        → Memᴰ (conn, CloseReason.for_removal) synced.closed)
    × ((closing : ℕ × CloseReason)
        → Memᴰ closing synced.closed
        → IsRemoved managed.peers desired closing)
    × (synced.hub.names ≡ desired)
    × (synced.set.local_id ≡ managed.local_id)
sync_lem_example = sync_lem managed empty_hub with_bob 3

abbrev no_hub : HubState ℕ ℕ ℕ
no_hub = empty_hub

duplicates_agree_example :
    ((inbound_arrives 1 2 (hold 1 2 no_hub 5 (10, true)) 6 20).conn ≡ 10)
    × ((inbound_arrives 2 1 (hold 2 1 no_hub 5 (20, true)) 7 10).conn ≡ 10)
    × ((inbound_arrives 1 2 (hold 1 2 no_hub 5 (10, true)) 6 20).closed ≡ 20 ∷ [])
    × ((inbound_arrives 2 1 (hold 2 1 no_hub 5 (20, true)) 7 10).closed ≡ 20 ∷ [])
    × (connection (inbound_arrives 1 2 (hold 1 2 no_hub 5 (10, true)) 6 20).hub 2 ≡ some 10)
    × (connection (inbound_arrives 2 1 (hold 2 1 no_hub 5 (20, true)) 7 10).hub 1 ≡ some 10)
duplicates_agree_example = duplicates_agree 1 2 no_hub no_hub 10 20 5 6 5 7 refl

abbrev news : List (ℕ × ℕ)
news = (6, 20) ∷ (7, 30) ∷ []

abbrev held_last : Holding ℕ ℕ ℕ
held_last = arrivals 2 1 (hold 2 1 no_hub 5 (10, true)) news

arrivals_lem_example :
    (connection held_last.hub 1 ≡ some held_last.conn)
    × ((true && gtb {A = ℕ} 1 2) ≡ true
        → (held_last.conn ≡ 10) × (held_last.closed ≡ conns_of news))
    × ((true && gtb {A = ℕ} 1 2) ≡ false
        → (held_last.conn ≡ last_of 10 news) × (held_last.closed ≡ before_last 10 news))
arrivals_lem_example = arrivals_lem 2 1 no_hub 5 10 true news

-- A dial that fails, a connection that is dropped at once, and one that is held for a minute
abbrev failed_dial : Round ℕ
failed_dial = record {
  now = 0;
  jitter = λ d. d;
  adopted = none;
  landing = Landing.dial_failed [];
  dialed = err [];
  uptime = 0;
}

abbrev held_dial : ℕ → Round ℕ
held_dial uptime = record failed_dial { dialed = ok 7; uptime = uptime }

run_rounds_lem_example :
    (last : PeerTask) × (run_rounds {E = ℕ} 1 2 start_task (failed_dial ∷ held_dial 5 ∷ [])
      ≡ some last)
    × IsWaiting 1 last
    × WaitsOut ℕ 1 last
    × (run_round {E = ℕ} 1 2 last (held_dial backoff_max) ≡ some start_task)
unfolding establish
run_rounds_lem_example =
    run_rounds_lem {E = ℕ} 1 2 failed_dial (held_dial 5 ∷ []) (held_dial backoff_max) (7, true)
      (omega arith, (omega arith, tt)) (λ shown. refl) (omega arith)
