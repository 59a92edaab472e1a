-- ===== src/Lib.antt =====
-- jj-mesh keeps the Jujutsu repositories of one user in step across their machines. Each machine runs
-- a daemon that holds a copy of the mesh state (the paired machines, the repos, the workspaces that are
-- kept fresh), gossips it to its peers, and routes the announcements of new operation heads between
-- the peer connections and the tasks of the repos.
--
-- The parts and their files:
--   Prelude          lists, results, orders and `BTreeMap` as the other parts use them
--   Config/Name      src/config/name.rs: `validate_name`, `sanitize`, `sanitize_bounded`
--   Config/RepoId    src/config/state/repo.rs: `Repo`, `RepoId::try_from`
--   Config/Membership  src/config/state/membership.rs: `Register`, `next_version`, `bumped_version`,
--                    `should_adopt`, the records `Peer` and `MeshRepo` and their ranking; Adoption and
--                    Convergence are about any map of registers
--   Config/Machine   src/config/state/machine.rs: `rename`, `observe`, `short_hostname`
--   Config/Claims    src/config/state/claims.rs: `set` (here `set_claims`), `observe`
--                    (`observe_claims`), `is_valid`
--   Config/State     src/config/state/mod.rs: `MeshState` in Defs, its mutations in Ops (`set_claims` is
--                    `set_repo_claims`, `peer_name` is `paired_name`), `merge_membership` in Merge, its
--                    equality in Equality; Reachable has the steps of a machine's life
--   Daemon/Backoff   src/daemon/backoff.rs
--   Daemon/Store     src/daemon/store.rs: `MeshStore::update` and its callers (`merge_membership` is
--                    `merge_gossip`)
--   Daemon/Hub       src/daemon/hub: Inbox (inbox.rs), Outbox (outbox.rs and the messages of
--                    src/net/sync.rs), Orphans (orphans.rs), Router and Inbound (mod.rs and the lookup of
--                    serve.rs; `unregister_repo` is `hub_unregister_repo`, `peer_name` is `managed_name`,
--                    `conflicts` is `conflicts_here`); Events has the steps of the hub's life
--   Daemon/Peers     src/daemon/peers.rs: `PeerSet` and its operations in Defs, `run_peer` and `establish`
--                    in Task and Retries, `connected` in Duplicates
--   Net/Wire         src/net/wire.rs: `write_message` and `read_message`
--   Net/Fetch        src/net/fetch.rs: the frames, the limits and `decompress_payload`
--   Repo/Codec       src/repo/codec.rs: `parse_operation` and `parse_view`
--   Repo/Sets        sets of ids as lists
--   Repo/Store       src/repo/open.rs and src/repo/write.rs: `OpenRepo` and its queries in Defs,
--                    `missing_heads` in Heads, `RawWriteBatch` in Writes (`stage` is `stage_file`)
--   Repo/Transfer    src/repo/transfer: Batch (mod.rs), Receive (`receive_ops`), Reachable
--                    (`ensure_batch_reachable`), Samples (`sample_haves`), Loose (the request and the loose
--                    format of the Git phase) and Fetch (`fetch` itself) for fetch.rs; Apply (apply.rs; `publish`
--                    is `publish_staged`); Serve (the op phase), Closure (`walk_git_closure`) and Objects
--                    (`serve_git_phase`, and what the fetcher makes of it) for serve.rs
--   Tests            the theorems at concrete inputs
--
-- The store applies a mutation of the mesh state, writes the result to disk, tells the peer set and
-- the repo set, and gives the hub the membership to gossip. A peer task gives what it receives to
-- the hub, which keeps it in the inbox of the repo, or in the orphan store when no repo of that name
-- is registered; a sender task takes from the outbox of its peer. The state behind a mutex is passed
-- explicitly: one operation of the model is one critical section of the source.
--
-- A text is the list of its code points, which are ordered as their UTF-8 bytes are, and its length
-- in bytes is computed from them. A `RepoId` is its text and a path is a text. A `BTreeMap` is an
-- association list in key order, and a `BTreeSet` a list. An endpoint id is a type with an order; a
-- connection and an open repo are types. The canonical form of a path, the parsing and the printing of
-- an endpoint id, the host name, the jitter of a delay and the outcome of a save are arguments, and so
-- are the encoding and the decoding of messages by postcard and of jj's protocol buffers.
-- `u64` and `usize` arithmetic on what a message, a file or a caller gives wraps, as in the release profile, and
-- the wrap is written out; the proofs have the bound as a hypothesis where it matters. A count of what is in
-- memory or was received, or that a budget bounds, is a number without bound. An error is a constructor for each message
-- of the source, and `out_of_fuel` is one that the source does not have, for the loop of the loose Git phase.
-- Fuel stands where the source loops: the sender loop gets a round for each waiting message and
-- one more, the walk of `ensure_batch_reachable` a round for each id on its stack and each parent of an operation
-- that it has not visited, `walk_tree` a round for each entry of a stored tree and one more, and the loose
-- Git phase a round for each byte of the stream and one more, as each frame takes some bytes.
-- A save ends in one of three ways (`SaveResult`): the file is written and synced, it is left as it was, or it is
-- replaced and the sync of its directory fails.
-- The other rounds are bounds of the source: `MAX_OP_FRAMES`, the
-- budgets of the walks over the operation log, and the budget of the samples.
--
-- The operation store is two maps from ids to the bytes of their files, and the heads are a list. A fetch
-- reads the heads, asks for the wants, gets a batch from the frames, asks for the Git objects that are
-- missing, and then stages the batch (the views, then the operations) and publishes the wants in place of the
-- heads that they supersede. A stream is the list of its bytes, and the frames that a server sends are the list
-- that its producer makes. What jj, gix, zstd and postcard do is in the records `Jj`, `Gix` and `Codecs`; that
-- jj's heads are a set, that jj's readers read what decodes and has none of the shapes that they refuse, that
-- codecs read back what they wrote, and that a received pack removes no object are the hypotheses `KeepsHeads`,
-- `ReadsStored`, `RoundTrips` and `KeepsObjects`.
--
-- Not modelled: logging, files, sockets and tasks; the loading and saving of `mesh.json`; the drawing of
-- ids; the pack format of the Git phase, the mirroring of refs, the deadlines and reports of a fetch; the
-- opening of repos, their indexes and workspaces; the streams of a peer connection; the repo tasks, pairing,
-- the control socket, file watching, the services and the command line, which are I/O around third-party
-- libraries or are not treated yet.
pub mod Prelude
pub mod Config
pub mod Daemon
pub mod Net
pub mod Repo
pub mod Tests
