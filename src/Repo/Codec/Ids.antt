-- ===== src/Repo/Codec/Ids.antt =====
-- `IdSet`, and `parse_operation`.
use jj_mesh.Prelude.{
  ensure, Result, ok, err, nat_ord, bool_ord, pair_ord, list_ord, option_ord, reverse_ord, ◌==◌,
  if◌then◌else◌, length, is_empty, all, any, ℕ, ◌+◌, ◌%◌, Bool, not, Option, none, some, List, [],
  ◌∷◌, ◌++◌, ◌>>=◌, ◌>>◌,
}
use jj_mesh.Config.Membership.Peers.{peer_register}
use jj_mesh.Config.Membership.Repos.{repo_register}
use jj_mesh.Config.Machine.{text_eq}
use jj_mesh.Config.Claims.{claims_register}
use jj_mesh.Repo.Codec.Messages.{
  CommitId, CodecError, malformed_operation, bad_view_id, no_parents, bad_parent_id,
  unbalanced_conflict, no_value, even_arity, unknown_state, TargetValue, Predecessors, Operation,
  RefTarget, RemoteRef, OpMeta,
}

abbrev pub store_id_len : ℕ
store_id_len = 64

abbrev pub IdSet : Type 0
IdSet = List CommitId

abbrev pub has_id : CommitId → IdSet → Bool
has_id id ids = any (text_eq id) ids

-- `IdSet::add`
unfoldable pub add : IdSet → CommitId → IdSet
add ids id = if is_empty id then ids else if has_id id ids then ids else id ∷ ids

unfoldable pub add_all : IdSet → List CommitId → IdSet
add_all ids [] = ids
add_all ids (id ∷ rest) = add_all (add ids id) rest

-- `term.value.iter().for_each(|id| self.add(id))`, for each term
abbrev pub terms_of : List (Option CommitId) → List CommitId
terms_of [] = []
terms_of (none ∷ terms) = terms_of terms
terms_of (some id ∷ terms) = id ∷ terms_of terms

abbrev pub add_value : IdSet → TargetValue → Result CodecError IdSet
add_value ids (TargetValue.commit id) = ok (add ids id)
add_value ids (TargetValue.conflict_legacy removes adds) = ok (add_all ids (removes ++ adds))
add_value ids (TargetValue.conflict removes adds) = do
  ensure (length adds == length removes + 1) unbalanced_conflict
  ok (add_all ids (terms_of (removes ++ adds)))

abbrev pub add_present : IdSet → Option TargetValue → Result CodecError IdSet
add_present ids none = err no_value
add_present ids (some value) = add_value ids value

abbrev pub add_target : IdSet → Option RefTarget → Result CodecError IdSet
add_target ids none = ok ids
add_target ids (some target) = add_present ids target.value

abbrev pub check_remote_ref_state : (ℕ → Bool) → ℕ → Result CodecError (Unit {0})
check_remote_ref_state known state = ensure (known state) unknown_state

abbrev pub add_remote_ref : (ℕ → Bool) → IdSet → RemoteRef → Result CodecError IdSet
add_remote_ref known ids r = do
  ensure (length r.target_terms % 2 == 1) even_arity
  check_remote_ref_state known r.state
  ok (add_all ids (terms_of r.target_terms))

abbrev pub predecessors_of : List Predecessors → List CommitId
predecessors_of [] = []
predecessors_of (entry ∷ rest) = entry.commit_id ∷ (entry.predecessor_ids ++ predecessors_of rest)

abbrev pub is_store_id : CommitId → Bool
is_store_id id = length id == store_id_len

abbrev pub check_operation : Operation → Result CodecError OpMeta
check_operation o = do
  ensure (is_store_id o.view_id) bad_view_id
  ensure (not (is_empty o.parents)) no_parents
  ensure (all is_store_id o.parents) bad_parent_id
  ok (record {
    view_id = o.view_id;
    parents = o.parents;
    referenced_commits = add_all [] (predecessors_of o.commit_predecessors);
  })

abbrev pub decoded : {A : Type 0} → CodecError → Option A → Result CodecError A
decoded e none = err e
decoded e (some a) = ok a

unfoldable pub parse_operation : (List ℕ → Option Operation) → List ℕ → Result CodecError OpMeta
parse_operation decode bytes = do o ← decoded malformed_operation (decode bytes); check_operation o
