-- ===== src/Tests/Exchange.antt =====
-- A fetch from the server of Transfer, from the frames that are served to the heads that are published.
use jj_mesh.Prelude.{
  ok, get, insert, nat_ord, bool_ord, pair_ord, list_ord, option_ord, reverse_ord, length, all, ◌≤◌,
  ◌≡◌, refl, ◌↔◌, ◌⊎◌, inl, true, false, some, [], ◌∷◌, arith,
}
use jj_mesh.Config.Name.{take}
use jj_mesh.Config.Membership.Peers.{peer_register}
use jj_mesh.Config.Membership.Repos.{repo_register}
use jj_mesh.Config.Machine.{text_eq_sound}
use jj_mesh.Config.Claims.{claims_register}
use jj_mesh.Repo.Codec.Messages.{CommitId}
use jj_mesh.Repo.Codec.Ids.{has_id, add, add_all, parse_operation}
use jj_mesh.Repo.Codec.Views.{parse_view}
use jj_mesh.Repo.Store.Defs.{
  is_root, has_operation, read_operation, has_view, check_replicated_id, OpenRepo,
}
use jj_mesh.Repo.Store.Walk.{push_parents, Reached}
use jj_mesh.Repo.Store.Heads.{walk_published, missing_heads, parents_in, missing_heads_lem}
use jj_mesh.Repo.Store.Writes.{RawWriteBatch, stage_file, write_bytes, persist, Dir, staged_file}
use jj_mesh.Net.Fetch.{max_haves}
use jj_mesh.Repo.Transfer.Batch.{ops_by_id}
use jj_mesh.Repo.Transfer.Receive.Frames.{has_parent}
use jj_mesh.Repo.Transfer.Reachable.Defs.{ids, ensure_batch_reachable}
use jj_mesh.Repo.Transfer.Reachable.Laws.{FromWants, ensure_batch_reachable_iff}
use jj_mesh.Repo.Transfer.Receive.Safe.{receive_ops_safe, IsAccepted}
use jj_mesh.Repo.Transfer.Apply.Defs.{
  parents_of, supersede_step, walk_superseded, superseded_by, stage_writes,
}
use jj_mesh.Repo.Transfer.Apply.Supersede.{superseded_by_sound, IsSuperseded}
use jj_mesh.Repo.Transfer.Apply.Closed.{IsClosed}
use jj_mesh.Repo.Transfer.Apply.Publish.{stage_crash_safe}
use jj_mesh.Repo.Transfer.Serve.Ops.{Describe}
use jj_mesh.Repo.Transfer.Serve.Order.{IsServable}
use jj_mesh.Repo.Transfer.Serve.Accepts.{served_accepted, IsExchange}
use jj_mesh.Repo.Transfer.Samples.{
  sort, dedup, sample_from, sample_each, sample_haves, FromHeads, sample_haves_lem,
}
use jj_mesh.Tests.Transfer.{
  reads_stored, root_id, old_id, new_id, new_view, old_op, new_op, empty_view, jj, codecs, trips,
  fetcher, server, stored, batch, stream, received,
}

only_entry : {V : Type 0} (id k : CommitId) (v w : V) → get id ((k, v) ∷ []) ≡ some w → v ≡ w
unfolding get
only_entry id k v w h = ground arith

pub fetcher-IsClosed : IsClosed jj fetcher
unfolding has_operation has_view get
fetcher-IsClosed = record {
  heads = λ h m. let same : h ≡ old_id = text_eq_sound h old_id (ground arith) in rw same refl;
  operations = λ id bytes g.
      rw (← only_entry id old_id (1 ∷ []) bytes g)
        (record { op = old_op; decodes = refl; parents = refl; view = refl });
  views = λ id bytes g. (empty_view, refl);
}

abbrev writes : RawWriteBatch
writes =
    staged_file Dir.views_dir new_view (4 ∷ [])
    ∷ staged_file Dir.operations_dir new_id (2 ∷ [])
    ∷ []

abbrev after : OpenRepo
after = record server { op_heads = old_id ∷ [] }

writes_staged : stage_writes jj fetcher batch ≡ ok writes
unfolding stage_writes write_bytes stage_file check_replicated_id get
writes_staged = refl

stage_crash_safe_example : IsClosed jj (persist fetcher (take 1 writes))
stage_crash_safe_example =
    stage_crash_safe jj codecs fetcher (new_id ∷ []) stream [] batch writes 1 reads_stored
      fetcher-IsClosed received writes_staged

receive_ops_safe_example : IsAccepted jj codecs fetcher (new_id ∷ []) batch
receive_ops_safe_example = receive_ops_safe jj codecs fetcher (new_id ∷ []) stream [] batch received

servable : IsServable jj codecs server fetcher new_id new_op stored
unfolding parse_operation parse_view get add_all add
servable = record {
  same_id = refl;
  stored = refl;
  parsed = refl;
  same_parents = refl;
  same_view = refl;
  id_size = refl;
  not_root = refl;
  size = omega arith;
  frame_size = omega arith;
  view = record {
    bytes = 4 ∷ [];
    meta = record { head_ids = []; referenced_commits = [] };
    stored = refl;
    parsed = refl;
    id_size = refl;
    size = omega arith;
    frame_size = omega arith;
  };
}

abbrev describe : Describe
describe = λ e. []

parent_held : all (has_parent fetcher []) (old_id ∷ []) ≡ true
unfolding has_operation get
parent_held = refl

served_accepted_example :
    IsExchange jj codecs trips describe server fetcher
      (new_id ∷ [])
      []
      ((new_id, new_op) ∷ [])
      (stored ∷ [])
served_accepted_example =
    served_accepted jj codecs trips describe server fetcher (new_id ∷ []) [] ((new_id, new_op) ∷ [])
      (stored ∷ []) (omega arith) (omega arith) (servable, refl, parent_held, tt) (inl refl, tt)
      refl (omega arith)

ensure_batch_reachable_iff_example :
    (ensure_batch_reachable (new_id ∷ []) batch ≡ ok tt)
    ↔ ((x : CommitId) → has_id x (ids batch.ops) ≡ true → FromWants batch.ops (new_id ∷ []) x)
ensure_batch_reachable_iff_example = ensure_batch_reachable_iff (new_id ∷ []) batch (refl, tt)

old_superseded :
    has_id old_id (superseded_by jj after (ops_by_id batch.ops) new_id (old_id ∷ [])) ≡ true
unfolding superseded_by walk_superseded supersede_step parents_of push_parents ops_by_id insert get
    read_operation
old_superseded = refl

superseded_by_sound_example :
    IsSuperseded jj after (ops_by_id batch.ops) new_id (old_id ∷ []) old_id
superseded_by_sound_example =
    superseded_by_sound jj after (ops_by_id batch.ops) new_id (old_id ∷ []) old_id old_superseded

new_missing : missing_heads jj fetcher (new_id ∷ old_id ∷ root_id ∷ []) ≡ ok (new_id ∷ [])
unfolding missing_heads walk_published has_operation get read_operation push_parents
new_missing = refl

missing_heads_lem_example :
    (has_id new_id (new_id ∷ []) ≡ true
      → (has_id new_id (new_id ∷ old_id ∷ root_id ∷ []) ≡ true)
        × (is_root fetcher new_id ≡ false)
        × ((has_operation fetcher new_id ≡ false)
            ⊎ ¬ Reached (parents_in jj fetcher) fetcher.op_heads new_id))
    × (has_id new_id (new_id ∷ old_id ∷ root_id ∷ []) ≡ true
        → is_root fetcher new_id ≡ false
        → has_operation fetcher new_id ≡ false
        → has_id new_id (new_id ∷ []) ≡ true)
missing_heads_lem_example =
    missing_heads_lem jj fetcher (new_id ∷ old_id ∷ root_id ∷ []) (new_id ∷ []) new_id new_missing

sampled : sample_haves jj server (new_id ∷ []) ≡ ok (old_id ∷ new_id ∷ [])
unfolding sample_haves sample_each sample_from sort dedup take read_operation get
sampled = refl

sample_haves_lem_example :
    (length (old_id ∷ new_id ∷ []) ≤ max_haves)
    × FromHeads jj server (new_id ∷ []) (old_id ∷ new_id ∷ [])
sample_haves_lem_example = sample_haves_lem jj server (new_id ∷ []) (old_id ∷ new_id ∷ []) sampled
