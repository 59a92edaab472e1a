-- ===== src/Tests/Hub.antt =====
-- The hub, its inboxes and outboxes at concrete values. A connection is a number, and so is an open repo.
use jj_mesh.Prelude.{
  if◌then◌else◌, is_ok, ok, err, get, insert, Sorted, nat_ord, bool_ord, pair_ord, list_ord,
  option_ord, reverse_ord, ◌==◌, length, All, ℕ, ◌<◌, ◌≡◌, refl, ◌≢◌, ◌⊎◌, Bool, true, false, none,
  some, List, [], ◌∷◌, arith,
}
use jj_mesh.Config.Error.{Error, Kind}
use jj_mesh.Config.Name.{Text, is_confusable, validate_name}
use jj_mesh.Config.RepoId.{RepoId}
use jj_mesh.Config.Membership.Register.{next_version, bumped_version}
use jj_mesh.Config.Membership.Peers.{peer_register}
use jj_mesh.Config.Membership.Repos.{repo_register}
use jj_mesh.Config.Claims.{claims_register}
use jj_mesh.Config.State.Defs.{membership, MeshState}
use jj_mesh.Config.State.Equality.{membership_differs}
use jj_mesh.Config.State.Ops.{validate_new_peer, add_peer}
use jj_mesh.Daemon.Hub.Inbox.{
  Heads, announced, drain, advance, requeue, Slot, Inbox, seq_or_zero, advance_order, undrained,
  taken_from, drain_lem, requeue_lem, marked,
}
use jj_mesh.Daemon.Hub.Outbox.{
  empty_outbox, push_announce, push_membership, send_all, Announce, Outbox, pending, send_all_lem,
}
use jj_mesh.Daemon.Hub.Orphans.{or_default, clone_sources, nobody_announces, CloneSource}
use jj_mesh.Daemon.Hub.Router.{
  empty_hub, register_repo, connection, publish, RepoEntry, PeerSender, HubState,
}
use jj_mesh.Daemon.Hub.Inbound.{peer_connected, peer_disconnected, route}
use jj_mesh.Daemon.Hub.WellFormed.{IsRouting}
use jj_mesh.Daemon.Hub.Events.{Run-IsRouting, repo_registered, announced_to, started, after}
use jj_mesh.Daemon.Hub.Contents.{route_lem, peer_disconnected_lem}
use jj_mesh.Daemon.Hub.Replay.{replayed, publish_lem, peer_connected_lem}
use jj_mesh.Daemon.Hub.Cloning.{IsSource, clone_sources_lem}
use jj_mesh.Daemon.Store.{
  mutation_failed, sync_peers, sync_repos, publish_to_hub, update, pair_in, MeshStore, SaveResult,
}
use jj_mesh.Daemon.Store.Commit.{update-IsInStep, IsInStep, IsUnsynced}
use jj_mesh.Tests.Data.{alice, bob, docs, docs_id, start, with_bob, from_bob}

abbrev op : Heads
op = (1 ∷ []) ∷ []

abbrev first_slot : Slot
first_slot = record { seq = 1; heads = op; drained = false }

abbrev second_slot : Slot
second_slot = record { seq = 2; heads = []; drained = true }

abbrev waiting : Inbox ℕ
waiting = record { slots = (2, first_slot) ∷ []; notified = true }

advance_order_example :
    (advance (advance waiting.slots 2 second_slot).0 3 first_slot).0
    ≡ (advance (advance waiting.slots 3 first_slot).0 2 second_slot).0
advance_order_example =
    advance_order waiting.slots 2 3 second_slot first_slot (tt, tt) (λ e. ground arith)

drain_lem_example :
    (taken_from 2 (drain waiting).1 ≡ undrained 2 (get 2 waiting.slots))
    × (get 2 (drain waiting).0.slots ≡ marked (get 2 waiting.slots))
    × (drain (drain waiting).0 ≡ ((drain waiting).0, []))
drain_lem_example = drain_lem waiting 2 (tt, tt)

waits : get 2 waiting.slots ≡ some first_slot
unfolding get
waits = refl

requeue_lem_example :
    (taken_from 2 (drain (requeue (drain waiting).0 2 1 op)).1 ≡ some (announced (2, first_slot)))
    × ((seq : ℕ) (heads : Heads) → seq ≢ 1 → requeue waiting 2 seq heads ≡ waiting)
requeue_lem_example = requeue_lem waiting 2 first_slot (tt, tt) waits

abbrev docs_announce : Announce
docs_announce = record { name = docs; id = docs_id; seq = 3; heads = op }

abbrev loaded : Outbox ℕ
loaded = push_announce (push_membership empty_outbox from_bob) docs_announce

two_wait : length (pending loaded) < 3
unfolding insert
two_wait = omega arith

send_all_lem_example :
    ((send_all 3 loaded).1 ≡ (pending loaded, true)) × (pending (send_all 3 loaded).0 ≡ [])
send_all_lem_example = send_all_lem loaded 3 two_wait

abbrev docs_entry : RepoEntry ℕ ℕ
docs_entry = record {
  id = docs_id;
  seq = 0;
  published = some op;
  inbox = waiting;
  conflicts = [];
  serving = none;
}

abbrev bob_sender : PeerSender ℕ ℕ
bob_sender = record { conn = 9; outbox = empty_outbox }

abbrev routing : HubState ℕ ℕ ℕ
routing = record empty_hub {
  repos = (docs, docs_entry) ∷ [];
  peers = (2, bob_sender) ∷ [];
  orphans = (alice, (2, record { id = docs_id; heads = op }) ∷ []) ∷ [];
}

docs_held : get docs routing.repos ≡ some docs_entry
unfolding get
docs_held = refl

docs_named : is_ok (validate_name Kind.repo docs) ≡ true
unfolding validate_name is_confusable
docs_named = refl

route_lem_example :
    (new : RepoEntry ℕ ℕ) × (get docs (route routing 2 docs_announce).repos ≡ some new)
    × (docs_id ≡ docs_id
        → seq_or_zero (get 2 docs_entry.inbox.slots) < 3
        → (get 2 new.inbox.slots ≡ some (record { seq = 3; heads = op; drained = false }))
          × (new.inbox.notified ≡ true)
          × (get 2 new.conflicts ≡ none))
    × (docs_id ≢ docs_id → (new.inbox ≡ docs_entry.inbox) × (get 2 new.conflicts ≡ some docs_id))
route_lem_example = route_lem routing 2 docs_announce docs_entry docs_named docs_held refl

peer_disconnected_lem_example :
    let t = (peer_disconnected routing 2).0 in
    ((name : Text) (entry : RepoEntry ℕ ℕ)
      → get name t.repos ≡ some entry
      → (get 2 entry.inbox.slots ≡ none) × (get 2 entry.conflicts ≡ none))
    × ((name : Text) → get 2 (or_default (get name t.orphans)) ≡ none)
    × (get 2 t.reports ≡ none)
    × (connection t 2 ≡ none)
peer_disconnected_lem_example = peer_disconnected_lem routing 2

bob_connected : get 2 routing.peers ≡ some bob_sender
unfolding get
bob_connected = refl

publish_lem_example :
    let t = publish routing docs docs_id op in
    (0 < t.announce_seq)
    × (new : PeerSender ℕ ℕ) × (get 2 t.peers ≡ some new)
    × (new.conn ≡ 9)
    × (get docs new.outbox.announces
        ≡ some (record { name = docs; id = docs_id; seq = t.announce_seq; heads = op }))
publish_lem_example =
    publish_lem routing docs docs_id op docs_entry 2 bob_sender docs_held refl (omega arith)
      bob_connected

peer_connected_lem_example :
    (sender : PeerSender ℕ ℕ) × (get 3 (peer_connected routing 3 7).peers ≡ some sender)
    × (sender.conn ≡ 7)
    × (sender.outbox.membership ≡ some routing.membership)
    × (sender.outbox.status ≡ routing.status)
    × ((name : Text)
        → get name sender.outbox.announces ≡ replayed name (get name routing.repos) none)
peer_connected_lem_example = peer_connected_lem routing 3 7 (tt, tt)

abbrev is_bob : ℕ → Bool
is_bob p = p == 2

alices : Sorted (or_default (get alice routing.orphans))
unfolding get
alices = (tt, tt)

clone_sources_lem_example :
    let held = or_default (get alice routing.orphans) in
    ((id : RepoId) (sources : List (CloneSource ℕ))
      → clone_sources is_bob routing.orphans alice ≡ ok (id, sources)
      → (0 < length sources) × All (IsSource is_bob held id) sources)
    × (clone_sources is_bob routing.orphans alice ≡ err nobody_announces
        → (p : ℕ) → is_bob p ≡ true
        → get p held ≡ none)
clone_sources_lem_example = clone_sources_lem is_bob routing.orphans alice alices

abbrev registered_docs : HubState ℕ ℕ ℕ
registered_docs = register_repo empty_hub docs docs_id

Run-IsRouting_example : IsRouting (route registered_docs 2 docs_announce)
Run-IsRouting_example =
    Run-IsRouting (
      after (after started (repo_registered docs docs_id docs_named))
        (announced_to 2 docs_announce))

abbrev store : MeshStore ℕ
store = record { local = 1; state = start; on_disk = start; gossiped = membership start 1 }

abbrev unsynced : MeshState ℕ → SaveResult
unsynced s = SaveResult.not_synced

update-IsInStep_example :
    let o = update unsynced store (pair_in 2 bob) in
    (IsInStep o.store ⊎ IsUnsynced unsynced store (pair_in 2 bob store.state) o)
    × ((e : Error)
        → pair_in 2 bob store.state ≡ err e
        → o ≡ record { store = store; effects = []; value = err (mutation_failed e) })
    × ((next : MeshState ℕ) (value : Unit {0})
        → pair_in 2 bob store.state ≡ ok (next, value)
        → (next ≡ store.state → o ≡ record { store = store; effects = []; value = ok value })
          × (next ≢ store.state
              → unsynced next ≡ SaveResult.saved
              → (o.store.state ≡ next)
                × (o.value ≡ ok value)
                × (o.effects
                    ≡ sync_peers next
                      ∷ sync_repos next
                      ∷ (if membership_differs next store.state
                          then publish_to_hub (membership next store.local) ∷ []
                          else []))))
update-IsInStep_example =
    update-IsInStep unsynced store (pair_in 2 bob) (record { saved = refl; published = refl })

paired_bob : pair_in 2 bob start ≡ ok (with_bob, tt)
unfolding add_peer validate_new_peer validate_name is_confusable bumped_version next_version get
    insert
paired_bob = refl

abbrev full : MeshState ℕ → SaveResult
full s = SaveResult.not_written

abbrev nobody : Text
nobody = []

unnamed : is_ok (update full store (pair_in 2 nobody)).value ≡ false
unfolding update add_peer validate_new_peer validate_name get
unnamed = refl
