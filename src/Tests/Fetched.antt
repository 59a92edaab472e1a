-- ===== src/Tests/Fetched.antt =====
-- The whole of a fetch from the server of Transfer, and of the Git phase of Objects.
use jj_mesh.Prelude.{
  ok, err, get, insert, nat_ord, bool_ord, pair_ord, list_ord, option_ord, reverse_ord, ◌≡◌, ◌≢◌,
  refl, true, none, [], ◌∷◌, ◌++◌, arith,
}
use jj_mesh.Config.Name.{take}
use jj_mesh.Config.Membership.Peers.{peer_register}
use jj_mesh.Config.Membership.Repos.{repo_register}
use jj_mesh.Config.Claims.{claims_register}
use jj_mesh.Repo.Codec.Ids.{add, add_all, parse_operation}
use jj_mesh.Repo.Codec.Views.{parse_view}
use jj_mesh.Repo.Store.Defs.{
  Bytes, has_operation, read_operation, has_view, update_op_heads, check_replicated_id,
}
use jj_mesh.Repo.Store.Walk.{push_parents}
use jj_mesh.Repo.Store.Writes.{stage_file, write_bytes, place, persist}
use jj_mesh.Net.Wire.{read_exact, read_message}
use jj_mesh.Net.Fetch.{decompress_payload, GitTransferFormat, WireObjectKind, GitFrame}
use jj_mesh.Repo.Transfer.Batch.{out_of_fuel, ops_by_id, pack_in_loose, FetchOutcome}
use jj_mesh.Repo.Transfer.Receive.Frames.{receive_view, receive_op}
use jj_mesh.Repo.Transfer.Reachable.Defs.{
  visit, walk_batch, parents_left, reachable_in, ensure_batch_reachable,
}
use jj_mesh.Repo.Transfer.Receive.Loop.{receive_frame, receive_rounds, receive_ops}
use jj_mesh.Repo.Transfer.Apply.Defs.{
  parents_of, supersede_step, walk_superseded, superseded_by, stage_writes, publications, stage,
  publish_heads, publish_staged,
}
use jj_mesh.Repo.Transfer.Samples.{sort, dedup, sample_from, sample_each, sample_haves}
use jj_mesh.Repo.Transfer.Loose.Defs.{
  referenced_commits, sort_needs, git_request, start_loose, write_git_chunk, receive_git_frame,
  loose_rounds, receive_git_loose, ensure_git_wants_arrived,
}
use jj_mesh.Repo.Transfer.Loose.Fuel.{receive_git_loose_ends}
use jj_mesh.Repo.Transfer.Closure.Defs.{Emitted}
use jj_mesh.Repo.Transfer.Objects.Defs.{serve_git_loose, GitMessages}
use jj_mesh.Repo.Transfer.Objects.Sent.{IsServed}
use jj_mesh.Repo.Transfer.Objects.Delivered.{served_objects_received, IsDelivered}
use jj_mesh.Repo.Transfer.Fetch.Defs.{
  apply_batch, receive_git, finish_fetch, fetch, Remote, Replica,
}
use jj_mesh.Repo.Transfer.Fetch.Safe.{fetch_safe, KeepsObjects, IsDone}
use jj_mesh.Tests.Transfer.{
  new_id, jj, reads_stored, keeps_heads, encode_git, codecs, trips, fetcher, server, framed, stream,
}
use jj_mesh.Tests.Exchange.{fetcher-IsClosed}
use jj_mesh.Tests.Objects.{gix, blob_id, git_stream, git_after}

-- A connection that takes all requests; no pack is received.
abbrev remote : Remote
remote = record {
  write_request = λ wants haves. ok tt;
  write_git_request = λ request. ok tt;
  receive_git_pack = λ git stream. err pack_in_loose;
  imported = ok tt;
  mirrored = ok tt;
  root_view_heads = [];
}

keeps_objects : KeepsObjects remote
keeps_objects = record { keeps = λ git last stream total x h c. cc }

abbrev both_phases : Bytes
both_phases = stream ++ framed (encode_git GitFrame.git_done)

abbrev before : Replica
before = record { repo = fetcher; git = [] }

abbrev final : Replica
final = record { repo = server; git = [] }

abbrev one_op : FetchOutcome
one_op = record { ops = 1; git_objects = 0 }

is_fetched :
    fetch jj codecs gix remote before (new_id ∷ []) GitTransferFormat.pack both_phases
    ≡ ok (final, one_op)
unfolding fetch finish_fetch apply_batch receive_git git_request referenced_commits sort_needs
    ensure_git_wants_arrived sample_haves sample_each sample_from sort dedup receive_ops
    receive_rounds receive_frame receive_view receive_op read_message read_exact parse_operation
    parse_view has_operation has_view decompress_payload ensure_batch_reachable reachable_in
    walk_batch visit parents_left ops_by_id take get insert add_all add stage stage_writes
    write_bytes stage_file check_replicated_id persist place publications superseded_by
    walk_superseded supersede_step parents_of push_parents read_operation publish_staged
    publish_heads update_op_heads receive_git_loose loose_rounds receive_git_frame write_git_chunk
is_fetched = refl

fetch_safe_example : IsDone jj codecs before final (new_id ∷ []) one_op
fetch_safe_example =
    fetch_safe jj codecs gix remote before final (new_id ∷ []) GitTransferFormat.pack both_phases
      one_op keeps_objects reads_stored keeps_heads fetcher-IsClosed is_fetched

abbrev git_messages : GitMessages
git_messages = record { malformed_git = []; cannot_walk = []; missing_object = λ id. [] }

abbrev blob_emitted : Emitted
blob_emitted = (blob_id, WireObjectKind.blob_object) ∷ []

blob-IsServed : IsServed gix codecs git_after (blob_id, WireObjectKind.blob_object)
unfolding get
blob-IsServed = record {
  content = blob_id;
  stored = refl;
  hashed = refl;
  id_size = refl;
  size = omega arith;
  frame_size = omega arith;
}

served_objects_received_example :
    (bytes : Bytes) × (serve_git_loose codecs git_messages git_after
        (record { emitted = blob_emitted; failure = none })
      ≡ ok (bytes, true))
    × IsDelivered gix codecs [] blob_emitted (bytes ++ 7 ∷ [])
served_objects_received_example =
    served_objects_received gix codecs trips git_messages git_after [] blob_emitted (7 ∷ [])
      (omega arith) (blob-IsServed, tt)

receive_git_loose_ends_example :
    (receive_git_loose gix codecs [] git_stream ≢ err out_of_fuel)
    × (loose_rounds gix codecs 100 [] start_loose git_stream
        ≡ receive_git_loose gix codecs [] git_stream)
receive_git_loose_ends_example = receive_git_loose_ends gix codecs [] git_stream 100 (omega arith)
