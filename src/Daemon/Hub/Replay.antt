-- ===== src/Daemon/Hub/Replay.antt =====
-- What waits for a peer: published heads, and the replay to a new connection.
use jj_mesh.Prelude.{
  BTreeMap, get, insert, Sorted, get-insert, get-Above, eqb_refl, Ord, nat_ord, bool_ord, pair_ord,
  list_ord, option_ord, reverse_ord, if◌then◌else◌, ℕ, ◌+◌, ◌<◌, ◌≡◌, refl, sym, ap, ◌∙◌, Option,
  none, some, [], ◌∷◌, arith,
}
use jj_mesh.Config.Name.{Text}
use jj_mesh.Config.RepoId.{RepoId}
use jj_mesh.Config.Membership.Register.{u64_mod, add_u64}
use jj_mesh.Config.Membership.Peers.{peer_register}
use jj_mesh.Config.Membership.Repos.{repo_register}
use jj_mesh.Config.Machine.{text_eq, text_eq_sound}
use jj_mesh.Config.Claims.{claims_register}
use jj_mesh.Config.State.Defs.{Membership}
use jj_mesh.Daemon.Hub.Inbox.{Heads}
use jj_mesh.Daemon.Hub.Outbox.{
  empty_outbox, push_announce, push_membership, Announce, StatusReport, Outbox,
}
use jj_mesh.Daemon.Hub.Values.{mapped, get-map_values, map_values-Sorted}
use jj_mesh.Daemon.Hub.Router.{
  with_id, push_to, forget_in_entry, forget_peer, publish, RepoEntry, PeerSender, HubState,
}
use jj_mesh.Daemon.Hub.Inbound.{replay_published, replay, seed_status, seeded, peer_connected}

-- The announcement of a published repo, or what was in the outbox before
abbrev pub replayed_heads : Text → RepoId → ℕ → Option Heads → Option Announce → Option Announce
replayed_heads name id seq none before = before
replayed_heads name id seq (some heads) before =
    some (record { name = name; id = id; seq = seq; heads = heads })

abbrev pub replayed :
    {E R : Type 0} → Text → Option (RepoEntry E R) → Option Announce → Option Announce
replayed name none before = before
replayed name (some entry) before = replayed_heads name entry.id entry.seq entry.published before

get-insert_self :
    {K V : Type 0} ⦃o : Ord K⦄ (name : K) (v : V) (m : BTreeMap K V)
    → get name (insert name v m) ≡ some v
get-insert_self name v m = ground (arith, get-insert name name v m, eqb_refl name)

get-replay_published :
    {E : Type 0} (key : Text) (id : RepoId) (seq : ℕ) (heads : Option Heads) (outbox : Outbox E)
    (name : Text)
    → get name (replay_published key id seq heads outbox).announces ≡ (
        if text_eq key name
        then replayed_heads name id seq heads (get name outbox.announces)
        else get name outbox.announces)
get-replay_published key id seq none outbox name = ground arith
get-replay_published key id seq (some heads) outbox name = ground (
  arith,
  get-insert name key (record { name = key; id = id; seq = seq; heads = heads }) outbox.announces,
  text_eq_sound key name,
)

replay_published_rest :
    {E : Type 0} (key : Text) (id : RepoId) (seq : ℕ) (heads : Option Heads) (outbox : Outbox E)
    → ((replay_published key id seq heads outbox).membership ≡ outbox.membership)
      × ((replay_published key id seq heads outbox).status ≡ outbox.status)
replay_published_rest key id seq none outbox = (refl, refl)
replay_published_rest key id seq (some heads) outbox = (refl, refl)

seed_membership :
    {E : Type 0} (status : Option StatusReport) (outbox : Outbox E)
    → (seed_status status outbox).membership ≡ outbox.membership
seed_membership none outbox = refl
seed_membership (some report) outbox = refl

seed_status_lem :
    {E : Type 0} (status : Option StatusReport) (m : Membership E)
    → (seed_status status (push_membership empty_outbox m)).status ≡ status
seed_status_lem none m = refl
seed_status_lem (some report) m = refl

module _ {E : Type 0} ⦃oe : Ord E⦄ where
  -- Replaying the published repos puts the latest announcement of each into the outbox.
  pub get-replay :
      {R : Type 0} (repos : BTreeMap Text (RepoEntry E R)) (outbox : Outbox E) (name : Text)
      → Sorted repos
      → get name (replay repos outbox).announces
        ≡ replayed name (get name repos) (get name outbox.announces)
  unfolding replay get
  get-replay [] outbox name s = refl
  get-replay (e ∷ repos) outbox name s =
      let after = replay_published (e.0) (e.1.id) (e.1.seq) (e.1.published) outbox in
      ground (
        arith,
        get-replay repos after name s.1,
        get-replay_published (e.0) (e.1.id) (e.1.seq) (e.1.published) outbox name,
        get-Above (e.0) repos s.0,
        text_eq_sound (e.0) name,
      )

  replay_rest :
      {R : Type 0} (repos : BTreeMap Text (RepoEntry E R)) (outbox : Outbox E)
      → ((replay repos outbox).membership ≡ outbox.membership)
        × ((replay repos outbox).status ≡ outbox.status)
  unfolding replay
  replay_rest [] outbox = (refl, refl)
  replay_rest (e ∷ repos) outbox =
      let after = replay_published (e.0) (e.1.id) (e.1.seq) (e.1.published) outbox in
      let here = replay_published_rest (e.0) (e.1.id) (e.1.seq) (e.1.published) outbox in
      let rest = replay_rest repos after in (rest.0 ∙ here.0, rest.1 ∙ here.1)

  replayed_forgotten :
      {R : Type 0} (from : E) (name : Text) (m : Membership E) (held : Option (RepoEntry E R))
      (status : Option StatusReport)
      → replayed name
          (mapped (forget_in_entry from) held)
          (get name (seed_status status (push_membership empty_outbox m)).announces)
        ≡ replayed name held none
  unfolding get
  replayed_forgotten from name m none none = refl
  replayed_forgotten from name m none (some report) = refl
  replayed_forgotten from name m (some entry) none = refl
  replayed_forgotten from name m (some entry) (some report) = refl

module _ {E C R : Type 0} ⦃oe : Ord E⦄ where
  -- Heads published under the id of the registered repo wait for every connected peer, in place of any
  -- older announcement of the repo, under a sequence number above all those given out before, unless the
  -- counter wraps.
  pub publish_lem :
      (state : HubState E C R) (name : Text) (id : RepoId) (heads : Heads) (entry : RepoEntry E R)
      (p : E) (sender : PeerSender E C)
      → get name state.repos ≡ some entry
      → id ≡ entry.id
      → state.announce_seq + 1 < u64_mod
      → get p state.peers ≡ some sender
      → let t = publish state name id heads in
        (state.announce_seq < t.announce_seq)
        × (new : PeerSender E C) × (get p t.peers ≡ some new)
        × (new.conn ≡ sender.conn)
        × (get name new.outbox.announces
            ≡ some (record { name = name; id = id; seq = t.announce_seq; heads = heads }))
  unfolding publish
  publish_lem state name id heads entry p sender held same room sending =
      let found : with_id id (get name state.repos) ≡ some entry =
        ground (arith, eqb_refl ⦃o = list_ord⦄ entry.id) in
      let announce : Announce = record {
        name = name;
        id = entry.id;
        seq = add_u64 state.announce_seq 1;
        heads = heads;
      } in
      let push : Outbox E → Outbox E = λ outbox. push_announce outbox announce in
      rw (found, publish)
        (
          omega arith,
          push_to push sender,
          get-map_values (push_to push) state.peers p ∙ ap (mapped (push_to push)) sending,
          refl,
          get-insert_self name announce sender.outbox.announces
              ∙ ap (λ i. some (record announce { id = i })) (sym same),
        )

  -- A machine that connects is told the membership, the status report and the latest heads of every repo
  -- that was published here, and of no other, when the map of the repos is in key order.
  pub peer_connected_lem :
      (state : HubState E C R) (from : E) (conn : C)
      → Sorted state.repos
      → (sender : PeerSender E C) × (get from (peer_connected state from conn).peers ≡ some sender)
        × (sender.conn ≡ conn)
        × (sender.outbox.membership ≡ some state.membership)
        × (sender.outbox.status ≡ state.status)
        × ((name : Text)
            → get name sender.outbox.announces ≡ replayed name (get name state.repos) none)
  unfolding peer_connected
  peer_connected_lem state from conn s =
      let before = forget_peer state from in
      let start = seed_status state.status (push_membership empty_outbox state.membership) in
      let sender : PeerSender E C = record { conn = conn; outbox = seeded before } in
      let rest = replay_rest before.repos start in
      (
        sender,
        get-insert_self from sender state.peers,
        refl,
        rest.0 ∙ seed_membership state.status (push_membership empty_outbox state.membership),
        rest.1 ∙ seed_status_lem state.status state.membership,
        λ name.
            get-replay before.repos start name
              (map_values-Sorted (forget_in_entry from) state.repos s)
            ∙ rw (get-map_values (forget_in_entry from) state.repos name)
                (replayed_forgotten from name state.membership (get name state.repos) state.status),
      )
