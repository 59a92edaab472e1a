-- ===== src/Tests/Codec.antt =====
-- The codec on decoded messages.
use jj_mesh.Prelude.{
  is_ok, ok, nat_ord, bool_ord, pair_ord, list_ord, option_ord, reverse_ord, ltb, ℕ, ◌≡◌, refl,
  Bool, true, false, Option, none, some, List, [], ◌∷◌,
}
use jj_mesh.Config.Membership.Peers.{peer_register}
use jj_mesh.Config.Membership.Repos.{repo_register}
use jj_mesh.Config.Claims.{claims_register}
use jj_mesh.Repo.Codec.Messages.{CommitId, TargetValue, Operation, View, ViewMeta}
use jj_mesh.Repo.Codec.Views.{parse_view}
use jj_mesh.Repo.Codec.Soundness.{view_readable}
use jj_mesh.Repo.Codec.Parsing.{view_ids, Reports, parse_view_lem}

abbrev commit_one : CommitId
commit_one = 1 ∷ []

abbrev small_view : View
small_view = record {
  head_ids = commit_one ∷ [];
  wc_commit_id = [];
  wc_commit_ids = (2 ∷ []) ∷ [];
  bookmarks = [];
  local_tags = some (record { value = some (TargetValue.commit (3 ∷ [])) }) ∷ [];
  remote_views = [];
  git_refs = [];
  migrated = false;
  git_head_legacy = [];
  git_head = none;
  git_heads = some (record { value = none }) ∷ [];
}

abbrev read_view : List ℕ → Option View
read_view bytes = some small_view

abbrev is_known : ℕ → Bool
is_known state = ltb state 2

parse_view_lem_example :
    (view_readable is_known small_view ≡ true
      → (m : ViewMeta) × (parse_view is_known read_view [] ≡ ok m)
        × Reports m.head_ids small_view.head_ids
        × Reports m.referenced_commits (view_ids small_view))
    × (view_readable is_known small_view ≡ false → is_ok (parse_view is_known read_view []) ≡ false)
parse_view_lem_example = parse_view_lem is_known read_view [] small_view refl

abbrev orphan_operation : Operation
orphan_operation = record { view_id = []; parents = []; commit_predecessors = [] }

abbrev read_operation : List ℕ → Option Operation
read_operation bytes = some orphan_operation
