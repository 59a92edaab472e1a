-- ===== src/Repo/Codec/Parsing.antt =====
-- `parse_view` and `parse_operation` on decoded messages.
use jj_mesh.Prelude.{
  is_ok, ok, nat_ord, bool_ord, pair_ord, list_ord, option_ord, reverse_ord, length, is_empty, all,
  ℕ, ◌<◌, ◌≡◌, refl, sym, ap, ◌∙◌, Bool, true, false, not, ◌&&◌, Option, some, List, [], ◌∷◌, ◌++◌,
  arith,
}
use jj_mesh.Config.Membership.Peers.{peer_register}
use jj_mesh.Config.Membership.Repos.{repo_register}
use jj_mesh.Config.Claims.{claims_register}
use jj_mesh.Repo.Codec.Messages.{CommitId, Operation, View, OpMeta, ViewMeta}
use jj_mesh.Repo.Codec.Ids.{
  store_id_len, IdSet, has_id, add, add_all, predecessors_of, is_store_id, check_operation,
  parse_operation,
}
use jj_mesh.Repo.Codec.Views.{collect_refs, parse_view}
use jj_mesh.Repo.Codec.Collect.{add_all-append, add_all-cons, stays_failed, Collects-cases}
use jj_mesh.Repo.Codec.Soundness.{has_id-add_all, ref_ids, view_readable, refs-Collects}

-- Every id that a view references, its heads and working copies first
abbrev pub view_ids : View → List CommitId
view_ids v = v.head_ids ++ ((v.wc_commit_id ∷ v.wc_commit_ids) ++ ref_ids v)

abbrev pub Reports : IdSet → List CommitId → Type 0
Reports ids xs = (id : CommitId) → has_id id ids ≡ (not (is_empty id) && has_id id xs)

Reports-add_all : (xs : List CommitId) → Reports (add_all [] xs) xs
Reports-add_all xs id = has_id-add_all id [] xs

referenced :
    (v : View)
    → add_all (add_all (add (add_all [] v.head_ids) v.wc_commit_id) v.wc_commit_ids) (ref_ids v)
      ≡ add_all [] (view_ids v)
referenced v = sym (
    add_all-append [] v.head_ids ((v.wc_commit_id ∷ v.wc_commit_ids) ++ ref_ids v)
    ∙ add_all-append (add_all [] v.head_ids) (v.wc_commit_id ∷ v.wc_commit_ids) (ref_ids v)
    ∙ ap (λ i. add_all i (ref_ids v))
        (add_all-cons (add_all [] v.head_ids) v.wc_commit_id v.wc_commit_ids))

-- A view that decodes is accepted exactly when it has none of the shapes that jj cannot read; then the
-- reported heads are its heads, and the reported commits are all that it references, in any encoding, the
-- empty id of an absent field left out.
pub parse_view_lem :
    (known : ℕ → Bool) (decode : List ℕ → Option View) (bytes : List ℕ) (v : View)
    → decode bytes ≡ some v
    → (view_readable known v ≡ true
        → (m : ViewMeta) × (parse_view known decode bytes ≡ ok m)
          × Reports m.head_ids v.head_ids
          × Reports m.referenced_commits (view_ids v))
      × (view_readable known v ≡ false → is_ok (parse_view known decode bytes) ≡ false)
unfolding parse_view
parse_view_lem known decode bytes v h =
    let heads = add_all [] v.head_ids in
    let working = add_all (add heads v.wc_commit_id) v.wc_commit_ids in
    let (yes_all, no_some) =
      Collects-cases (collect_refs known v working) working (view_readable known v) (ref_ids v)
        (refs-Collects known v working) in
    (
      λ readable. (
        record { head_ids = heads; referenced_commits = add_all working (ref_ids v) },
        rw (h, yes_all readable) refl,
        Reports-add_all v.head_ids,
        rw (referenced v) (Reports-add_all (view_ids v)),
      ),
      λ unreadable. rw h (stays_failed (collect_refs known v working) _ (no_some unreadable)),
    )

abbrev IsValidOperation : Operation → Type 0
IsValidOperation o =
    (length o.view_id ≡ store_id_len) × (0 < length o.parents) × (all is_store_id o.parents ≡ true)

operation_ok :
    (o : Operation)
    → IsValidOperation o
    → check_operation o
      ≡ ok (record {
        view_id = o.view_id;
        parents = o.parents;
        referenced_commits = add_all [] (predecessors_of o.commit_predecessors);
      })
operation_ok o valid = ground arith

operation_valid : (o : Operation) → is_ok (check_operation o) ≡ true → IsValidOperation o
operation_valid o h = ground arith

-- An operation that decodes is accepted exactly when its view id and its parents are ids of the store and it
-- has a parent; the reported commits are those of its predecessor records.
parse_operation_lem :
    (decode : List ℕ → Option Operation) (bytes : List ℕ) (o : Operation)
    → decode bytes ≡ some o
    → ((length o.view_id ≡ store_id_len)
          × (0 < length o.parents)
          × (all is_store_id o.parents ≡ true)
        → (m : OpMeta) × (parse_operation decode bytes ≡ ok m)
          × (m.view_id ≡ o.view_id)
          × (m.parents ≡ o.parents)
          × Reports m.referenced_commits (predecessors_of o.commit_predecessors))
      × (is_ok (parse_operation decode bytes) ≡ true
          → (length o.view_id ≡ store_id_len)
            × (0 < length o.parents)
            × (all is_store_id o.parents ≡ true))
unfolding parse_operation
parse_operation_lem decode bytes o h =
    let commits = add_all [] (predecessors_of o.commit_predecessors) in
    (
      λ valid. (
        record { view_id = o.view_id; parents = o.parents; referenced_commits = commits },
        rw h (operation_ok o valid),
        refl,
        refl,
        Reports-add_all (predecessors_of o.commit_predecessors),
      ),
      λ accepted. operation_valid o (rw h at accepted),
    )
