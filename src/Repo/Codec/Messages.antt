-- ===== src/Repo/Codec/Messages.antt =====
-- The protocol buffers of jj's operation store, as far as they are read.
use jj_mesh.Prelude.{
  nat_ord, bool_ord, pair_ord, list_ord, option_ord, reverse_ord, ℕ, Bool, Option, List,
}
use jj_mesh.Config.Name.{Text}
use jj_mesh.Config.Membership.Peers.{peer_register}
use jj_mesh.Config.Membership.Repos.{repo_register}
use jj_mesh.Config.Claims.{claims_register}

abbrev pub CommitId : Type 0
CommitId = List ℕ

pub data CodecError : Type 0 where
  malformed_operation malformed_view : CodecError
  bad_view_id no_parents bad_parent_id : CodecError
  unbalanced_conflict no_value even_arity unknown_state : CodecError
  empty_tag_ref colliding_tags : CodecError

pub record Predecessors : Type 0 where
  pub commit_id : CommitId
  pub predecessor_ids : List CommitId

pub record Operation : Type 0 where
  pub view_id : CommitId
  pub parents : List CommitId
  pub commit_predecessors : List Predecessors

pub data TargetValue : Type 0 where
  commit : CommitId → TargetValue
  conflict_legacy : List CommitId → List CommitId → TargetValue
  conflict : List (Option CommitId) → List (Option CommitId) → TargetValue

pub record RefTarget : Type 0 where
  pub value : Option TargetValue

pub record RemoteBookmark : Type 0 where
  pub target : Option RefTarget
  pub state : Option ℕ

pub record Bookmark : Type 0 where
  pub local_target : Option RefTarget
  pub remote_bookmarks : List RemoteBookmark

pub record RemoteRef : Type 0 where
  pub target_terms : List (Option CommitId)
  pub state : ℕ

pub record RemoteView : Type 0 where
  pub name : Text
  pub bookmarks : List RemoteRef
  pub tags : List RemoteRef

pub record GitRef : Type 0 where
  pub name : Text
  pub commit_id : CommitId
  pub target : Option RefTarget

-- The targets of `local_tags` and of `git_heads`, whose names are read for messages only, stand by themselves.
pub record View : Type 0 where
  pub head_ids : List CommitId
  pub wc_commit_id : CommitId
  pub wc_commit_ids : List CommitId
  pub bookmarks : List Bookmark
  pub local_tags : List (Option RefTarget)
  pub remote_views : List RemoteView
  pub git_refs : List GitRef
  pub migrated : Bool
  pub git_head_legacy : CommitId
  pub git_head : Option RefTarget
  pub git_heads : List (Option RefTarget)

pub record OpMeta : Type 0 where
  pub view_id : CommitId
  pub parents : List CommitId
  pub referenced_commits : List CommitId

pub record ViewMeta : Type 0 where
  pub head_ids : List CommitId
  pub referenced_commits : List CommitId
