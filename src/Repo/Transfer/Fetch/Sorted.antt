-- ===== src/Repo/Transfer/Fetch/Sorted.antt =====
-- The lemmas on `sort_needs` and `git_request`.
use jj_mesh.Prelude.{
  ensure, >>=-eq-ok, ok, contains_key, nat_ord, bool_ord, pair_ord, list_ord, option_ord,
  reverse_ord, ◌==◌, Bool-cases, length, all, ◌≡◌, inl, inr, Bool, true, ◌||◌, List, [], ◌∷◌, ◌++◌,
  arith,
}
use jj_mesh.Config.Machine.{text_eq, text_eq_sound}
use jj_mesh.Repo.Codec.Messages.{CommitId}
use jj_mesh.Repo.Codec.Ids.{has_id}
use jj_mesh.Repo.Store.Defs.{is_virtual_root}
use jj_mesh.Net.Fetch.{GitTransferFormat, GitRequest}
use jj_mesh.Repo.Transfer.Batch.{bad_object_id}
use jj_mesh.Repo.Transfer.Reachable.Defs.{ids}
use jj_mesh.Repo.Transfer.Loose.Defs.{GitStore, sort_need, sort_needs, git_request, Gix, GitNeeds}

module _ (gix : Gix) (git : GitStore) where
  -- It is asked for, or it needs not be
  abbrev pub is_covered : List CommitId → CommitId → Bool
  is_covered wanted x = has_id x wanted || (is_virtual_root x || contains_key x git)

  has_id-concat :
      (x y : CommitId) (xs : List CommitId) → has_id x (xs ++ y ∷ []) ≡ (has_id x xs || text_eq x y)
  has_id-concat x y [] = ground arith
  has_id-concat x y (z ∷ xs) = ground (arith, has_id-concat x y xs)

  -- The needs after some ids
  record Sorted (n : GitNeeds) (ids : List CommitId) (m : GitNeeds) : Type 0 where
    pub covers :
        (x : CommitId)
        → (is_covered n.wanted x || has_id x ids) ≡ true
        → is_covered m.wanted x ≡ true

  sort_need_lem :
      (n m : GitNeeds) (id : CommitId) → sort_need gix git n id ≡ ok m → Sorted n (id ∷ []) m
  sort_need_lem n m id h = elim (Bool-cases (is_virtual_root id)) [
    | inl virtual ↦
        let same : n ≡ m = ground (arith, rw (virtual, sort_need) at h) in
        rw (← same) (record { covers = λ x k. ground (arith, text_eq_sound x id) })
    | inr real ↦
        let (_, _, h₁) =
          >>=-eq-ok (ensure (length id == gix.hash_len) bad_object_id) _
            (rw (real, sort_need) at h) in
        elim (Bool-cases (contains_key id git)) [
          | inl old ↦
              let same : record n { held = n.held ++ id ∷ [] } ≡ m = ground (arith, rw old at h₁) in
              rw (← same) (record { covers = λ x k. ground (arith, text_eq_sound x id) })
          | inr new ↦
              let same : record n { wanted = n.wanted ++ id ∷ [] } ≡ m =
                ground (arith, rw new at h₁) in
              rw (← same) (record { covers = λ x k. ground (arith, has_id-concat x id n.wanted) })
        ]
  ]

  sort_needs_lem :
      (n m : GitNeeds) (ids : List CommitId) → sort_needs gix git n ids ≡ ok m → Sorted n ids m
  unfolding sort_needs
  sort_needs_lem n m [] h =
      let same : n ≡ m = ground arith in rw (← same) (record { covers = λ x k. ground arith })
  sort_needs_lem n m (id ∷ ids) h =
      let (mid, e, rest) = >>=-eq-ok (sort_need gix git n id) _ h in
      let one = sort_need_lem n mid id e in
      let more = sort_needs_lem mid m ids rest in
      record { covers = λ x k. ground (arith, one.covers x, more.covers x) }

  pub git_request_covers :
      (format : GitTransferFormat) (view_heads referenced : List CommitId) (request : GitRequest)
      (x : CommitId)
      → git_request gix git format view_heads referenced ≡ ok request
      → has_id x referenced ≡ true
      → is_covered request.wants x ≡ true
  unfolding git_request
  git_request_covers format view_heads referenced request x h k =
      let (needs, e, made) =
        >>=-eq-ok (sort_needs gix git (record { wanted = []; held = view_heads }) referenced) _ h in
      let same : needs.wanted ≡ request.wants = ground arith in
      let s = sort_needs_lem (record { wanted = []; held = view_heads }) needs referenced e in
      rw (← same) (s.covers x (ground arith))

pub all_contained :
    (git : GitStore) (ids : List CommitId) (x : CommitId)
    → all (λ id. contains_key id git) ids ≡ true
    → has_id x ids ≡ true
    → contains_key x git ≡ true
all_contained git [] x a h = cc
all_contained git (id ∷ ids) x a h = ground (arith, text_eq_sound x id, all_contained git ids x)
