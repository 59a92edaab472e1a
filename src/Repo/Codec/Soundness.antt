-- ===== src/Repo/Codec/Soundness.antt =====
-- The lemmas on the collector of `parse_view`, and the shapes that jj reads.
use jj_mesh.Prelude.{
  ◌>>◌, ensure, Result, ok, nat_ord, bool_ord, pair_ord, list_ord, option_ord, reverse_ord, ◌==◌,
  Bool-cases, length, is_empty, all, ℕ, ◌%◌, ◌≡◌, refl, inl, inr, Bool, true, not, ◌&&◌, ◌||◌,
  Option, none, some, List, [], ◌∷◌, ◌++◌, arith, ◌>>=◌,
}
use jj_mesh.Config.Membership.Peers.{peer_register}
use jj_mesh.Config.Membership.Repos.{repo_register}
use jj_mesh.Config.Machine.{text_eq, text_eq_sound}
use jj_mesh.Config.Claims.{claims_register}
use jj_mesh.Repo.Codec.Messages.{
  CommitId, CodecError, even_arity, unknown_state, empty_tag_ref, colliding_tags, RemoteBookmark,
  Bookmark, RemoteRef, RemoteView, GitRef, View,
}
use jj_mesh.Repo.Codec.Ids.{
  IdSet, has_id, add, add_all, terms_of, add_target, check_remote_ref_state, add_remote_ref,
}
use jj_mesh.Repo.Codec.Views.{
  each, add_remote_state, add_remote_bookmark, add_bookmark, add_remote_view, tags_prefix,
  add_git_ref, tags_free, collect_refs,
}
use jj_mesh.Repo.Codec.Collect.{
  succeeds, Collects-bind, Collects-ensure, all_of, Collects-each, target_ids, target_readable,
  add_target-Collects, Collects,
}

has_id-add :
    (id : CommitId) (ids : IdSet) (x : CommitId)
    → has_id id (add ids x) ≡ (has_id id ids || (not (is_empty id) && text_eq id x))
unfolding add
has_id-add id ids [] = ground (arith, text_eq_sound id [])
has_id-add [] ids (c ∷ x) = ground (arith, text_eq_sound [] (c ∷ x))
has_id-add (d ∷ id) ids (c ∷ x) = ground (arith, text_eq_sound (d ∷ id) (c ∷ x))

-- Membership in a collected set
pub has_id-add_all :
    (id : CommitId) (ids : IdSet) (xs : List CommitId)
    → has_id id (add_all ids xs) ≡ (has_id id ids || (not (is_empty id) && has_id id xs))
unfolding add_all add
has_id-add_all id ids [] = ground arith
has_id-add_all id ids (x ∷ xs) =
    ground (arith, has_id-add_all id (add ids x) xs, has_id-add id ids x)

abbrev pub bookmark_ids : RemoteBookmark → List CommitId
bookmark_ids b = target_ids b.target ++ []

abbrev pub state_known : (ℕ → Bool) → Option ℕ → Bool
state_known known none = true
state_known known (some state) = known state

abbrev pub bookmark_readable : (ℕ → Bool) → RemoteBookmark → Bool
bookmark_readable known b = target_readable b.target && state_known known b.state

abbrev pub local_bookmark_ids : Bookmark → List CommitId
local_bookmark_ids b = target_ids b.local_target ++ all_of bookmark_ids b.remote_bookmarks

abbrev pub local_bookmark_readable : (ℕ → Bool) → Bookmark → Bool
local_bookmark_readable known b =
    target_readable b.local_target && all (bookmark_readable known) b.remote_bookmarks

abbrev pub remote_ref_ids : RemoteRef → List CommitId
remote_ref_ids r = terms_of r.target_terms

abbrev pub remote_ref_readable : (ℕ → Bool) → RemoteRef → Bool
remote_ref_readable known r = (length r.target_terms % 2 == 1) && (known r.state && true)

abbrev pub remote_view_ids : RemoteView → List CommitId
remote_view_ids v = all_of remote_ref_ids (v.bookmarks ++ v.tags)

abbrev pub remote_view_readable : (ℕ → Bool) → RemoteView → Bool
remote_view_readable known v = all (remote_ref_readable known) (v.bookmarks ++ v.tags)

abbrev pub git_ref_ids : GitRef → List CommitId
git_ref_ids r = r.commit_id ∷ target_ids r.target

abbrev pub git_ref_readable : GitRef → Bool
git_ref_readable r = not (text_eq r.name tags_prefix) && target_readable r.target

-- One id before the others
added :
    (ids : IdSet) (id : CommitId) (r : Result CodecError IdSet) {q : Bool} {ys : List CommitId}
    → Collects r (add ids id) q ys
    → Collects r ids q (id ∷ ys)
unfolding add_all
added ids id r c = record { outcome = c.outcome }

state-Collects :
    (known : ℕ → Bool) (ids : IdSet) (state : Option ℕ)
    → Collects (add_remote_state known ids state) ids (state_known known state) []
unfolding add_all
state-Collects known ids none = succeeds (ok ids) ids [] refl
state-Collects known ids (some state) = elim (Bool-cases (known state)) [
  | inl holds ↦ record { outcome = ground arith }
  | inr unknown ↦ record { outcome = ground arith }
]

remote_bookmark-Collects :
    (known : ℕ → Bool) (ids : IdSet) (b : RemoteBookmark)
    → Collects (add_remote_bookmark known ids b) ids (bookmark_readable known b) (bookmark_ids b)
remote_bookmark-Collects known ids b =
    Collects-bind (add_target ids b.target) (λ mid. add_remote_state known mid b.state) ids
      (add_target-Collects ids b.target) (λ mid. state-Collects known mid b.state)

bookmark-Collects :
    (known : ℕ → Bool) (ids : IdSet) (b : Bookmark)
    → Collects
        (add_bookmark known ids b)
        ids
        (local_bookmark_readable known b)
        (local_bookmark_ids b)
bookmark-Collects known ids b =
    Collects-bind (add_target ids b.local_target)
      (λ mid. each (add_remote_bookmark known) mid b.remote_bookmarks) ids
      (add_target-Collects ids b.local_target)
      (λ mid.
        Collects-each (add_remote_bookmark known) (bookmark_readable known) bookmark_ids
          (remote_bookmark-Collects known) mid b.remote_bookmarks)

remote_ref-Collects :
    (known : ℕ → Bool) (ids : IdSet) (r : RemoteRef)
    → Collects (add_remote_ref known ids r) ids (remote_ref_readable known r) (remote_ref_ids r)
remote_ref-Collects known ids r =
    Collects-ensure (length r.target_terms % 2 == 1) even_arity
      (check_remote_ref_state known r.state >> ok (add_all ids (terms_of r.target_terms))) ids
      (Collects-ensure (known r.state) unknown_state (ok (add_all ids (terms_of r.target_terms)))
        ids
        (succeeds (ok (add_all ids (terms_of r.target_terms))) ids (terms_of r.target_terms) refl))

git_ref-Collects :
    (ids : IdSet) (r : GitRef)
    → Collects (add_git_ref ids r) ids (git_ref_readable r) (git_ref_ids r)
git_ref-Collects ids r =
    Collects-ensure (not (text_eq r.name tags_prefix)) empty_tag_ref
      (add_target (add ids r.commit_id) r.target) ids
      (added ids r.commit_id (add_target (add ids r.commit_id) r.target)
        (add_target-Collects (add ids r.commit_id) r.target))

-- The ids after the heads and the working copies, and whether jj reads a view
abbrev pub ref_ids : View → List CommitId
ref_ids v =
    all_of local_bookmark_ids v.bookmarks
    ++ (all_of target_ids v.local_tags
        ++ (all_of remote_view_ids v.remote_views
            ++ (all_of git_ref_ids v.git_refs
                ++ ((v.git_head_legacy ∷ target_ids v.git_head) ++ all_of target_ids v.git_heads))))

abbrev pub view_readable : (ℕ → Bool) → View → Bool
view_readable known v =
    all (local_bookmark_readable known) v.bookmarks
    && (all target_readable v.local_tags
        && (all (remote_view_readable known) v.remote_views
            && (all git_ref_readable v.git_refs
                && (tags_free v
                    && (target_readable v.git_head && all target_readable v.git_heads)))))

git_refs-Collects :
    (v : View) (ids : IdSet)
    → Collects
        (do
          ids₄ ← each add_git_ref ids v.git_refs
          ensure (tags_free v) colliding_tags
          ids₅ ← add_target (add ids₄ v.git_head_legacy) v.git_head
          each add_target ids₅ v.git_heads)
        ids
        (all git_ref_readable v.git_refs
          && (tags_free v && (target_readable v.git_head && all target_readable v.git_heads)))
        (all_of git_ref_ids v.git_refs
          ++ ((v.git_head_legacy ∷ target_ids v.git_head) ++ all_of target_ids v.git_heads))
git_refs-Collects v ids =
    Collects-bind (each add_git_ref ids v.git_refs) _ ids
      (Collects-each add_git_ref git_ref_readable git_ref_ids git_ref-Collects ids v.git_refs)
      (λ a. Collects-ensure (tags_free v) colliding_tags _ a (
        Collects-bind (add_target (add a v.git_head_legacy) v.git_head) _ a
          (added a v.git_head_legacy (add_target (add a v.git_head_legacy) v.git_head)
            (add_target-Collects (add a v.git_head_legacy) v.git_head))
          (λ b.
            Collects-each add_target target_readable target_ids add_target-Collects b v.git_heads)))

pub refs-Collects :
    (known : ℕ → Bool) (v : View) (ids : IdSet)
    → Collects (collect_refs known v ids) ids (view_readable known v) (ref_ids v)
refs-Collects known v ids =
    Collects-bind (each (add_bookmark known) ids v.bookmarks) _ ids
      (Collects-each (add_bookmark known) (local_bookmark_readable known) local_bookmark_ids
        (bookmark-Collects known) ids v.bookmarks)
      (λ a.
        Collects-bind (each add_target a v.local_tags) _ a
          (Collects-each add_target target_readable target_ids add_target-Collects a v.local_tags)
          (λ b.
            Collects-bind (each (add_remote_view known) b v.remote_views) _ b
              (Collects-each (add_remote_view known) (remote_view_readable known) remote_view_ids
                (λ i r.
                  Collects-each (add_remote_ref known) (remote_ref_readable known) remote_ref_ids
                    (remote_ref-Collects known) i (r.bookmarks ++ r.tags))
                b v.remote_views)
              (λ c. git_refs-Collects v c)))
