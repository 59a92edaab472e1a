-- ===== src/Repo/Transfer/Fetch/Safe.antt =====
-- The lemmas on `fetch` and `finish_fetch`.
use mathlib.Core.Path.{subst}
use jj_mesh.Prelude.{
  ensure, >>=-eq-ok, ensure-eq-ok, ok, total, get, contains_key, nat_ord, bool_ord, pair_ord,
  list_ord, option_ord, reverse_ord, leb, Option-cases, length, is_empty, all, ℕ, ◌≡◌, refl, inl,
  inr, true, not, ◌&&◌, ◌||◌, some, List, arith,
}
use jj_mesh.Repo.Codec.Messages.{CommitId}
use jj_mesh.Repo.Codec.Ids.{has_id}
use jj_mesh.Repo.Store.Defs.{Bytes, is_virtual_root, OpenRepo, Jj, KeepsHeads}
use jj_mesh.Net.Fetch.{max_wants, GitTransferFormat, WireObjectKind, GitRequest}
use jj_mesh.Repo.Transfer.Batch.{
  or_else, store_failure, bad_wants, git_wants_absent, FetchOutcome, OpBatch, Codecs,
}
use jj_mesh.Repo.Transfer.Receive.Loop.{receive_ops}
use jj_mesh.Repo.Transfer.Receive.Preserve.{or_else-eq-ok}
use jj_mesh.Repo.Transfer.Receive.Safe.{receive_ops_safe, IsAccepted}
use jj_mesh.Repo.Transfer.Apply.Defs.{stage, publish_staged, Staged}
use jj_mesh.Repo.Transfer.Apply.Closed.{IsClosed, ReadsStored}
use jj_mesh.Repo.Transfer.Apply.Safe.{transfer_safe, IsFetched}
use jj_mesh.Repo.Transfer.Samples.{sample_haves}
use jj_mesh.Repo.Transfer.Loose.Defs.{
  GitStore, referenced_commits, git_request, ensure_git_wants_arrived, Gix,
}
use jj_mesh.Repo.Transfer.Loose.Verified.{receive_git_loose_lem}
use jj_mesh.Repo.Transfer.Fetch.Defs.{
  local_view_heads, apply_batch, receive_git, finish_fetch, fetch, Remote, Replica,
}
use jj_mesh.Repo.Transfer.Fetch.Sorted.{git_request_covers, all_contained}

-- Git's reception of a pack adds objects, and removes none.
pub record KeepsObjects (remote : Remote) : Type 0 where
  pub keeps :
      (git last : GitStore) (stream : Bytes) (total : ℕ) (x : CommitId)
      → remote.receive_git_pack git stream ≡ ok (last, total)
      → contains_key x git ≡ true
      → contains_key x last ≡ true

-- The batch that was applied, and what became of it
pub record IsDone (jj : Jj) (codecs : Codecs) (replica last : Replica) (wants : List CommitId)
    (outcome : FetchOutcome) : Type 0 where
  pub batch : OpBatch
  pub accepted : IsAccepted jj codecs replica.repo wants batch
  pub fetched : IsFetched jj replica.repo last.repo batch wants replica.repo.op_heads
  pub count : outcome.ops ≡ length batch.ops
  pub objects : (x : CommitId) → contains_key x replica.git ≡ true → contains_key x last.git ≡ true
  pub commits :
      (x : CommitId)
      → has_id x (referenced_commits batch) ≡ true
      → (is_virtual_root x || contains_key x last.git) ≡ true

contains-kept :
    (x : CommitId) (git last : GitStore)
    → ((o : WireObjectKind × Bytes) → get x git ≡ some o → get x last ≡ some o)
    → contains_key x git ≡ true
    → contains_key x last ≡ true
contains-kept x git last k h = elim (Option-cases (get x git)) [
  | inl none_there ↦ absurd (ground arith)
  | inr (o, there) ↦ ground (arith, k o there)
]

module _ (jj : Jj) (codecs : Codecs) (gix : Gix) (remote : Remote) (k : KeepsObjects remote) where
  receive_git_keeps :
      (format : GitTransferFormat) (git last : GitStore) (stream : Bytes) (total : ℕ) (x : CommitId)
      → receive_git jj codecs gix remote format git stream ≡ ok (last, total)
      → contains_key x git ≡ true
      → contains_key x last ≡ true
  unfolding receive_git
  receive_git_keeps GitTransferFormat.loose git last stream total x h c =
      let v = receive_git_loose_lem gix codecs git last stream total h in
      contains-kept x git last (λ o g. v.kept x o g) c
  receive_git_keeps GitTransferFormat.pack git last stream total x h c =
      k.keeps git last stream total x h c

  done_lem :
      (replica : Replica) (wants : List CommitId) (batch : OpBatch) (request : GitRequest)
      (view_heads : List CommitId) (format : GitTransferFormat) (git : GitStore) (total : ℕ)
      (after final : OpenRepo) (staged : Staged) (stream first : Bytes)
      → ReadsStored jj
      → KeepsHeads jj
      → IsClosed jj replica.repo
      → receive_ops jj codecs replica.repo wants first ≡ ok (batch, stream)
      → git_request gix replica.git format view_heads (referenced_commits batch) ≡ ok request
      → receive_git jj codecs gix remote request.format replica.git stream ≡ ok (git, total)
      → all (λ id. contains_key id git) request.wants ≡ true
      → stage jj remote.imported replica.repo batch wants replica.repo.op_heads ≡ ok (after, staged)
      → publish_staged jj remote.mirrored after staged ≡ ok final
      → IsDone jj codecs replica
          (record { repo = final; git = git })
          wants
          (record { ops = length batch.ops; git_objects = total })
  done_lem replica wants batch request view_heads format git total after final staged stream first
        reads heads c r asked received arrived is_staged published =
      let repo = replica.repo in
      let grows = λ (x : CommitId).
        receive_git_keeps request.format replica.git git stream total x received in
      record {
        batch = batch;
        accepted = receive_ops_safe jj codecs repo wants first stream batch r;
        fetched =
            transfer_safe jj codecs remote.imported remote.mirrored repo after final wants
              repo.op_heads first stream batch staged reads heads c r is_staged published;
        count = refl;
        objects = grows;
        commits = λ x m. ground (
          arith,
          grows x,
          git_request_covers gix replica.git format view_heads (referenced_commits batch) request x
              asked m,
          all_contained git request.wants x arrived,
        );
      }

  finish_fetch_lem :
      (replica last : Replica) (wants : List CommitId) (format : GitTransferFormat)
      (batch : OpBatch) (outcome : FetchOutcome) (stream first : Bytes)
      → ReadsStored jj
      → KeepsHeads jj
      → IsClosed jj replica.repo
      → receive_ops jj codecs replica.repo wants first ≡ ok (batch, stream)
      → finish_fetch jj codecs gix remote replica wants format batch stream ≡ ok (last, outcome)
      → IsDone jj codecs replica last wants outcome
  unfolding finish_fetch apply_batch ensure_git_wants_arrived
  finish_fetch_lem replica last wants format batch outcome stream first reads heads c r h =
      let repo = replica.repo in
      let (view_heads, _, h₁) =
        >>=-eq-ok (or_else store_failure (local_view_heads jj codecs gix remote repo repo.op_heads))
          _ h in
      let (request, asked, h₂) =
        >>=-eq-ok (git_request gix replica.git format view_heads (referenced_commits batch)) _ h₁ in
      let (_, _, h₃) = >>=-eq-ok (remote.write_git_request request) _ h₂ in
      let ((git, total), received, h₄) =
        >>=-eq-ok (receive_git jj codecs gix remote request.format replica.git stream) _ h₃ in
      let (_, arrived, h₅) =
        >>=-eq-ok (ensure (all (λ id. contains_key id git) request.wants) git_wants_absent) _ h₄ in
      let (final, applied, made) =
        >>=-eq-ok
          (or_else store_failure (apply_batch jj codecs gix remote repo batch wants repo.op_heads))
          _ h₅ in
      let ((after, staged), is_staged, published) =
        >>=-eq-ok (stage jj remote.imported repo batch wants repo.op_heads) _ (
          or_else-eq-ok store_failure
            (apply_batch jj codecs gix remote repo batch wants repo.op_heads) final applied) in
      let there : Replica × FetchOutcome = (
        record { repo = final; git = git },
        record { ops = length batch.ops; git_objects = total },
      ) in
      let target : Replica × FetchOutcome = (last, outcome) in
      let e : there ≡ target = ground arith in
      subst (λ l. IsDone jj codecs replica (l.0) wants (l.1)) e
        (done_lem replica wants batch request view_heads format git total after final staged stream
          first reads heads c r asked received
          (ensure-eq-ok (all (λ id. contains_key id git) request.wants) git_wants_absent arrived)
          is_staged published)

-- A fetch that succeeds, on a repo in which every stored operation can be read by jj and has its parents and its
-- view, applies a batch that is sound and leaves such a repo, in which the operations of the batch are stored,
-- what was stored is stored with the same bytes, every want that was no head is one, every head of before is a
-- head or is an ancestor of a want, and no other head appears; it tells how many operations came; the Git store
-- keeps its objects and has every commit that the batch references, jj's virtual root aside.
pub fetch_safe :
    (jj : Jj) (codecs : Codecs) (gix : Gix) (remote : Remote) (replica last : Replica)
    (wants : List CommitId) (format : GitTransferFormat) (stream : Bytes) (outcome : FetchOutcome)
    → KeepsObjects remote
    → ReadsStored jj
    → KeepsHeads jj
    → IsClosed jj replica.repo
    → fetch jj codecs gix remote replica wants format stream ≡ ok (last, outcome)
    → IsDone jj codecs replica last wants outcome
unfolding fetch
fetch_safe jj codecs gix remote replica last wants format stream outcome k reads heads c h =
    let (_, _, h₁) =
      >>=-eq-ok (ensure (not (is_empty wants) && leb (length wants) max_wants) bad_wants) _ h in
    let (haves, _, h₂) =
      >>=-eq-ok (or_else store_failure (sample_haves jj replica.repo replica.repo.op_heads)) _ h₁ in
    let (_, _, h₃) = >>=-eq-ok (remote.write_request wants haves) _ h₂ in
    let ((batch, rest), received, h₄) =
      >>=-eq-ok (receive_ops jj codecs replica.repo wants stream) _ h₃ in
    finish_fetch_lem jj codecs gix remote k replica last wants format batch outcome rest stream
      reads heads c received h₄
