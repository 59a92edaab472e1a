-- ===== src/Repo/Transfer/Apply/Safe.antt =====
-- The lemmas on `stage` and `publish` for a batch that was received.
use mathlib.Core.Path.{subst}
use jj_mesh.Prelude.{
  >>=-eq-ok, Result, ok, BTreeMap, get, nat_ord, bool_ord, pair_ord, list_ord, option_ord,
  reverse_ord, Bool-cases, keep, ◌≡◌, refl, sym, ap, ◌∙◌, ◌⊎◌, inl, inr, true, false, not, ◌||◌,
  some, List, [], ◌∷◌, map, arith,
}
use jj_mesh.Repo.Codec.Messages.{CommitId, OpMeta}
use jj_mesh.Repo.Codec.Ids.{has_id}
use jj_mesh.Repo.Sets.{text_eq_refl, has_id_self, has_id-keep}
use jj_mesh.Repo.Store.Defs.{
  Bytes, has_operation, read_operation, OpStoreError, OpenRepo, Jj, KeepsHeads,
}
use jj_mesh.Repo.Store.Writes.{persist}
use jj_mesh.Repo.Transfer.Batch.{ops_by_id, OpBatch, Codecs}
use jj_mesh.Repo.Transfer.Reachable.Defs.{ids}
use jj_mesh.Repo.Transfer.Receive.Loop.{receive_ops}
use jj_mesh.Repo.Transfer.Receive.Safe.{receive_ops_safe}
use jj_mesh.Repo.Transfer.Apply.Defs.{
  Published, parents_of, superseded_by, stage_writes, publications, all_readable, stage,
  publish_heads, publish_staged, Staged,
}
use jj_mesh.Repo.Transfer.Apply.Supersede.{superseded_by_sound, IsSuperseded}
use jj_mesh.Repo.Transfer.Apply.Closed.{IsClosed, Extends, ReadsStored}
use jj_mesh.Repo.Transfer.Apply.Staging.{Extends-persist, IsClosed-persist}
use jj_mesh.Repo.Transfer.Apply.Stored.{bytes_kept, has_operation-batch}
use jj_mesh.Repo.Transfer.Apply.Publish.{
  Places-writes, has_operation-heads, SupersededIn, wants_of, Proper, publish_lem, HeadsMoved,
}

-- For the local heads that a publication drops
module _ (jj : Jj) (repo : OpenRepo) (batch : BTreeMap CommitId OpMeta)
    (local_heads : List CommitId) where
  abbrev published : CommitId → Published
  published want = (want, superseded_by jj repo batch want local_heads)

  Proper-published : (wants : List CommitId) → Proper (map published wants)
  Proper-published [] = tt
  Proper-published (w ∷ ws) =
      let itself = superseded_by_sound jj repo batch w local_heads w in
      let none_of : has_id w (superseded_by jj repo batch w local_heads) ≡ false =
        elim (Bool-cases (has_id w (superseded_by jj repo batch w local_heads))) [
          | inl h ↦ absurd (ground (arith, text_eq_refl w, (itself h).is_other))
          | inr h ↦ h
        ] in
      (none_of, Proper-published ws)

  -- A want that supersedes the head
  pub record Superseder (wants : List CommitId) (h : CommitId) : Type 0 where
    pub want : CommitId
    pub is_wanted : has_id want wants ≡ true
    pub is_superseded : IsSuperseded jj repo batch want local_heads h

  superseder :
      (wants : List CommitId) (h : CommitId)
      → SupersededIn h (map published wants)
      → Superseder wants h
  superseder [] h s = absurd s
  superseder (w ∷ ws) h (inl m) = record {
    want = w;
    is_wanted = has_id_self w ws;
    is_superseded = superseded_by_sound jj repo batch w local_heads h m;
  }
  superseder (w ∷ ws) h (inr s) =
      let found = superseder ws h s in
      record {
        want = found.want;
        is_wanted = ground (arith, found.is_wanted);
        is_superseded = found.is_superseded;
      }

  wants_of-published : (wants : List CommitId) → wants_of (map published wants) ≡ wants
  wants_of-published [] = refl
  wants_of-published (w ∷ ws) = ap (λ l. w ∷ l) (wants_of-published ws)

-- The publication of heads leaves what the walk reads.
Superseder-heads :
    (jj : Jj) (repo : OpenRepo) (heads : List CommitId) (batch : BTreeMap CommitId OpMeta)
    (local_heads wants : List CommitId) (h : CommitId)
    → Superseder jj repo batch local_heads wants h
    → Superseder jj (record repo { op_heads = heads }) batch local_heads wants h
unfolding parents_of read_operation
Superseder-heads jj repo heads batch local_heads wants h s = record {
  want = s.want;
  is_wanted = s.is_wanted;
  is_superseded = record {
    is_head = s.is_superseded.is_head;
    is_other = s.is_superseded.is_other;
    is_ancestor = s.is_superseded.is_ancestor;
  };
}

-- What a fetch leaves of a repo: every field is about the repo that it leaves, `final`.
pub record IsFetched (jj : Jj) (repo final : OpenRepo) (batch : OpBatch)
    (wants local_heads : List CommitId) : Type 0 where
  pub closed : IsClosed jj final
  pub stored : (x : CommitId) → has_operation repo x ≡ true → has_operation final x ≡ true
  pub bytes_stored :
      (x : CommitId) (bytes : Bytes)
      → get x repo.operations ≡ some bytes
      → get x final.operations ≡ some bytes
  pub batch_stored : (x : CommitId) → has_id x (ids batch.ops) ≡ true → has_operation final x ≡ true
  pub wants_published :
      (w : CommitId)
      → has_id w wants ≡ true
      → has_id w local_heads ≡ false
      → has_id w final.op_heads ≡ true
  pub heads_kept :
      (h : CommitId)
      → has_id h repo.op_heads ≡ true
      → (has_id h final.op_heads ≡ true)
        ⊎ Superseder jj final (ops_by_id batch.ops) local_heads wants h
  pub heads_from :
      (h : CommitId)
      → has_id h final.op_heads ≡ true
      → (has_id h repo.op_heads || has_id h wants) ≡ true

-- What the writes of a batch leave of a repo, before the heads are published
record IsWritten (jj : Jj) (repo after : OpenRepo) (batch : OpBatch) : Type 0 where
  extends : Extends jj repo after
  bytes_stored :
      (x : CommitId) (bytes : Bytes)
      → get x repo.operations ≡ some bytes
      → get x after.operations ≡ some bytes
  batch_stored : (x : CommitId) → has_id x (ids batch.ops) ≡ true → has_operation after x ≡ true

fetched_lem :
    (jj : Jj) (repo after final : OpenRepo) (batch : OpBatch) (wants local_heads : List CommitId)
    → IsWritten jj repo after batch
    → HeadsMoved jj after final (publications jj after batch wants local_heads)
    → IsFetched jj repo final batch wants local_heads
unfolding publications
fetched_lem jj repo after final batch wants local_heads w moved =
    let e = w.extends in
    let by_id = ops_by_id batch.ops in
    let fresh = keep (λ want. not (has_id want local_heads)) wants in
    let chosen = λ (x : CommitId). has_id-keep (λ want. not (has_id want local_heads)) x wants in
    let named = wants_of-published jj after by_id local_heads fresh in
    let same_operations : final.operations ≡ after.operations =
      ap (λ (r : OpenRepo). r.operations) moved.only_heads in
    let still : (x : CommitId) → has_operation after x ≡ true → has_operation final x ≡ true =
      λ x h. rw (moved.only_heads) (has_operation-heads after final.op_heads x ∙ h) in
    record {
      closed = moved.closed;
      stored = λ x h. still x (e.operations x h);
      bytes_stored = λ x b g. rw same_operations (w.bytes_stored x b g);
      batch_stored = λ x m. still x (w.batch_stored x m);
      wants_published = λ w m n. elim (moved.published w (rw named (ground (arith, chosen w)))) [
        | inl there ↦ there
        | inr s ↦
            let found = superseder jj after by_id local_heads fresh w s in
            absurd (ground (arith, (found.is_superseded).is_head))
      ];
      heads_kept = λ h m. elim (moved.kept h (rw e.op_heads m)) [
        | inl there ↦ inl there
        | inr s ↦
            let found = superseder jj after by_id local_heads fresh h s in
            let wanted : Superseder jj after by_id local_heads wants h = record {
              want = found.want;
              is_wanted = ground (arith, chosen found.want, found.is_wanted);
              is_superseded = found.is_superseded;
            } in
            inr (
              subst (λ r. Superseder jj r by_id local_heads wants h) (sym moved.only_heads)
                (Superseder-heads jj after final.op_heads by_id local_heads wants h wanted))
      ];
      heads_from =
          λ h m. ground (arith, rw named at (moved.origin h m), chosen h, ap (has_id h) e.op_heads);
    }

IsFetched-of :
    (jj : Jj) (repo next final : OpenRepo) (batch : OpBatch) (wants local_heads : List CommitId)
    → KeepsHeads jj
    → IsWritten jj repo next batch
    → IsClosed jj next
    → publish_heads jj next (publications jj next batch wants local_heads) ≡ ok final
    → IsFetched jj repo final batch wants local_heads
unfolding publications
IsFetched-of jj repo next final batch wants local_heads k w c h =
    let by_id = ops_by_id batch.ops in
    let fresh = keep (λ want. not (has_id want local_heads)) wants in
    fetched_lem jj repo next final batch wants local_heads w (
      publish_lem jj k next final (map (published jj next by_id local_heads) fresh) c
        (Proper-published jj next by_id local_heads fresh) h)

-- A fetch whose batch is received, staged and published, from a repo in which every stored operation can be
-- read by jj and has its parents and its view, leaves such a repo: what was stored is stored with the same bytes, the batch
-- is stored, every want that was no head is one, a head that is dropped was superseded by a want whose recorded ancestry holds it, and no
-- other head appears.
pub transfer_safe :
    (jj : Jj) (codecs : Codecs) (imported mirrored : Result OpStoreError (Unit {0}))
    (repo after final : OpenRepo) (wants local_heads : List CommitId) (stream rest : Bytes)
    (batch : OpBatch) (staged : Staged)
    → ReadsStored jj
    → KeepsHeads jj
    → IsClosed jj repo
    → receive_ops jj codecs repo wants stream ≡ ok (batch, rest)
    → stage jj imported repo batch wants local_heads ≡ ok (after, staged)
    → publish_staged jj mirrored after staged ≡ ok final
    → IsFetched jj repo final batch wants local_heads
unfolding stage publish_staged
transfer_safe jj codecs imported mirrored repo after final wants local_heads stream rest batch
      staged reads k c r s p =
    let (_, _, s₁) = >>=-eq-ok imported _ s in
    let (writes, w, s₂) = >>=-eq-ok (stage_writes jj repo batch) _ s₁ in
    let next = persist repo writes in
    let ps = publications jj next batch wants local_heads in
    let (_, _, s₃) = >>=-eq-ok (all_readable jj next ps) _ s₂ in
    let (_, _, p₁) = >>=-eq-ok mirrored _ p in
    let accepted = receive_ops_safe jj codecs repo wants stream rest batch r in
    let places = Places-writes jj reads codecs repo wants batch writes c accepted w in
    let same : next ≡ after = ground arith in
    let listed : ps ≡ staged.to_publish = ground arith in
    let published_all : publish_heads jj next ps ≡ ok final = cc in
    let written : IsWritten jj repo next batch = record {
      extends = Extends-persist jj repo writes places;
      bytes_stored = λ x b g. bytes_kept jj repo batch writes x b w g;
      batch_stored =
          λ x m. has_operation-batch jj codecs repo wants batch writes x accepted w places m;
    } in
    IsFetched-of jj repo next final batch wants local_heads k written
      (IsClosed-persist jj repo writes places c) published_all
