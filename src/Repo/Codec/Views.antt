-- ===== src/Repo/Codec/Views.antt =====
-- `parse_view`.
use jj_mesh.Prelude.{
  ensure, Result, ok, nat_ord, bool_ord, pair_ord, list_ord, option_ord, reverse_ord, ◌==◌,
  if◌then◌else◌, is_empty, any, ℕ, Bool, false, not, ◌&&◌, ◌||◌, Option, none, some, List, [], ◌∷◌,
  ◌++◌, ◌>>=◌, ◌>>◌,
}
use jj_mesh.Config.Name.{Text}
use jj_mesh.Config.Membership.Peers.{peer_register}
use jj_mesh.Config.Membership.Repos.{repo_register}
use jj_mesh.Config.Machine.{text_eq}
use jj_mesh.Config.Claims.{claims_register}
use jj_mesh.Repo.Codec.Messages.{
  CodecError, malformed_view, empty_tag_ref, colliding_tags, RemoteBookmark, Bookmark, RemoteView,
  GitRef, View, ViewMeta,
}
use jj_mesh.Repo.Codec.Ids.{
  IdSet, add, add_all, add_target, check_remote_ref_state, add_remote_ref, decoded,
}

-- A `for` loop with `?`
abbrev pub each :
    {A : Type 0} → (IdSet → A → Result CodecError IdSet) → IdSet → List A → Result CodecError IdSet
each f ids [] = ok ids
each f ids (x ∷ xs) = do ids' ← f ids x; each f ids' xs

abbrev pub add_remote_state : (ℕ → Bool) → IdSet → Option ℕ → Result CodecError IdSet
add_remote_state known ids none = ok ids
add_remote_state known ids (some state) = do check_remote_ref_state known state; ok ids

abbrev pub add_remote_bookmark : (ℕ → Bool) → IdSet → RemoteBookmark → Result CodecError IdSet
add_remote_bookmark known ids b = do
  ids' ← add_target ids b.target
  add_remote_state known ids' b.state

abbrev pub add_bookmark : (ℕ → Bool) → IdSet → Bookmark → Result CodecError IdSet
add_bookmark known ids b = do
  ids' ← add_target ids b.local_target
  each (add_remote_bookmark known) ids' b.remote_bookmarks

abbrev pub add_remote_view : (ℕ → Bool) → IdSet → RemoteView → Result CodecError IdSet
add_remote_view known ids v = each (add_remote_ref known) ids (v.bookmarks ++ v.tags)

-- `"refs/tags/"` and `"git"`
abbrev pub tags_prefix : Text
tags_prefix = b'r' ∷ b'e' ∷ b'f' ∷ b's' ∷ b'/' ∷ b't' ∷ b'a' ∷ b'g' ∷ b's' ∷ b'/' ∷ []

abbrev pub git_name : Text
git_name = b'g' ∷ b'i' ∷ b't' ∷ []

abbrev pub strip_prefix : Text → Text → Option Text
strip_prefix [] text = some text
strip_prefix (c ∷ cs) [] = none
strip_prefix (c ∷ cs) (d ∷ text) = let rest = strip_prefix cs text in if c == d then rest else none

abbrev pub add_git_ref : IdSet → GitRef → Result CodecError IdSet
add_git_ref ids r = do
  ensure (not (text_eq r.name tags_prefix)) empty_tag_ref
  add_target (add ids r.commit_id) r.target

abbrev pub nonempty : Option Text → Bool
nonempty none = false
nonempty (some name) = not (is_empty name)

abbrev pub is_tag_ref : GitRef → Bool
is_tag_ref r = nonempty (strip_prefix tags_prefix r.name)

abbrev pub is_tagged_git : RemoteView → Bool
is_tagged_git v = text_eq v.name git_name && not (is_empty v.tags)

-- The tags of an unmigrated view do not collide.
abbrev pub tags_free : View → Bool
tags_free v = v.migrated || not (any is_tag_ref v.git_refs && any is_tagged_git v.remote_views)

-- The references of a view after its heads and working copies, in the order of the source
abbrev pub collect_refs : (ℕ → Bool) → View → IdSet → Result CodecError IdSet
collect_refs known v ids = do
  ids₁ ← each (add_bookmark known) ids v.bookmarks
  ids₂ ← each add_target ids₁ v.local_tags
  ids₃ ← each (add_remote_view known) ids₂ v.remote_views
  ids₄ ← each add_git_ref ids₃ v.git_refs
  ensure (tags_free v) colliding_tags
  ids₅ ← add_target (add ids₄ v.git_head_legacy) v.git_head
  each add_target ids₅ v.git_heads

abbrev pub check_view : (ℕ → Bool) → View → Result CodecError ViewMeta
check_view known v = do
  let heads = add_all [] v.head_ids
  let working = add_all (add heads v.wc_commit_id) v.wc_commit_ids
  ids ← collect_refs known v working
  ok (record { head_ids = heads; referenced_commits = ids })

unfoldable pub parse_view :
    (ℕ → Bool) → (List ℕ → Option View) → List ℕ → Result CodecError ViewMeta
parse_view known decode bytes = do v ← decoded malformed_view (decode bytes); check_view known v
