-- ===== src/Repo/Transfer/Closure/Defs.antt =====
-- The walk over the trees of the commits that are sent. The Git store has its commits and trees decoded; the
-- range of commits is that of `commit_range`. The fuel of a walk is the number of the
-- entries of all the trees and one more.
use jj_mesh.Prelude.{
  ◌>>=◌, Result, ok, err, BTreeMap, get, insert, eqb, nat_ord, bool_ord, pair_ord, list_ord,
  option_ord, reverse_ord, ◌==◌, if◌then◌else◌, length, is_empty, keep, ℕ, zero, suc, ◌+◌, Bool,
  true, false, not, ◌&&◌, Option, none, some, List, [], ◌∷◌, ◌++◌, map, foldl,
}
use jj_mesh.Config.Name.{Text}
use jj_mesh.Config.Machine.{text_eq}
use jj_mesh.Repo.Codec.Messages.{CommitId}
use jj_mesh.Repo.Codec.Ids.{has_id}
use jj_mesh.Repo.Store.Defs.{is_virtual_root}
use jj_mesh.Net.Fetch.{WireObjectKind}
use jj_mesh.Repo.Transfer.Reachable.Defs.{ids}

abbrev pub max_bases : ℕ
max_bases = 8

pub data EntryMode : Type 0 where
  tree_mode blob_mode link_mode : EntryMode

pub record TreeEntry : Type 0 where
  pub mode : EntryMode
  pub filename : Text
  pub oid : CommitId

-- `Commit`
pub record GitCommit : Type 0 where
  pub tree : CommitId
  pub parents : List CommitId
  pub change : Option Text

pub record GitObjects : Type 0 where
  pub commits : BTreeMap CommitId GitCommit
  pub trees : BTreeMap CommitId (List TreeEntry)

pub data ClosureError : Type 0 where
  missing_commit missing_tree : ClosureError

abbrev pub Emitted : Type 0
Emitted = List (CommitId × WireObjectKind)

-- The ids that were seen, and the objects that were emitted, in order
pub record Emitting : Type 0 where
  pub seen : List CommitId
  pub emitted : Emitted

abbrev pub Waiting : Type 0
Waiting = List (CommitId × List CommitId)

-- The variables of the walk over one tree
pub record TreeWalk : Type 0 where
  pub out : Emitting
  pub stack : Waiting

abbrev pub is_tree : EntryMode → Bool
is_tree EntryMode.tree_mode = true
is_tree EntryMode.blob_mode = false
is_tree EntryMode.link_mode = false

abbrev pub tree_or : Option (List TreeEntry) → Result ClosureError (List TreeEntry)
tree_or none = err missing_tree
tree_or (some entries) = ok entries

abbrev pub find_tree : GitObjects → CommitId → Result ClosureError (List TreeEntry)
find_tree git id = tree_or (get id git.trees)

abbrev pub find_all : GitObjects → List CommitId → Result ClosureError (List (List TreeEntry))
find_all git [] = ok []
find_all git (id ∷ ids) = do
  entries ← find_tree git id
  rest ← find_all git ids
  ok (entries ∷ rest)

-- `bisect_entry`: the entry of that name, a tree or not
abbrev pub bisect_entry : Text → Bool → List TreeEntry → Option TreeEntry
bisect_entry filename as_tree [] = none
bisect_entry filename as_tree (e ∷ es) =
    let rest = bisect_entry filename as_tree es in
    if text_eq e.filename filename && eqb (is_tree e.mode) as_tree then some e else rest

abbrev pub push_found : Option TreeEntry → List CommitId → List CommitId
push_found none same = same
push_found (some found) same = found.oid ∷ same

abbrev pub same_entries : TreeEntry → List (List TreeEntry) → List CommitId
same_entries e [] = []
same_entries e (base ∷ bases) =
    push_found (bisect_entry e.filename (is_tree e.mode) base) (same_entries e bases)

-- `b".jjconflict"`
abbrev pub conflict_prefix : Text
conflict_prefix = b'.' ∷ b'j' ∷ b'j' ∷ b'c' ∷ b'o' ∷ b'n' ∷ b'f' ∷ b'l' ∷ b'i' ∷ b'c' ∷ b't' ∷ []

abbrev pub starts_with : Text → Text → Bool
starts_with [] text = true
starts_with (c ∷ cs) [] = false
starts_with (c ∷ cs) (d ∷ text) = (c == d) && starts_with cs text

abbrev pub next_bases : List CommitId → TreeEntry → List CommitId → List CommitId
next_bases bases e same =
    if is_empty same && starts_with conflict_prefix e.filename then bases else same

-- An entry that no base has at its place
abbrev pub new_entry : List CommitId → TreeWalk → TreeEntry → EntryMode → List CommitId → TreeWalk
new_entry bases w e EntryMode.link_mode same = w
new_entry bases w e EntryMode.tree_mode same = record w {
  stack = (e.oid, next_bases bases e same) ∷ w.stack;
}
new_entry bases w e EntryMode.blob_mode same = if has_id e.oid w.out.seen then w else record w {
  out = record {
    seen = e.oid ∷ w.out.seen;
    emitted = w.out.emitted ++ (e.oid, WireObjectKind.blob_object) ∷ [];
  };
}

unfoldable pub walk_entry : List CommitId → List (List TreeEntry) → TreeWalk → TreeEntry → TreeWalk
walk_entry bases base_trees w e =
    let same = same_entries e base_trees in
    if has_id e.oid same then w else new_entry bases w e e.mode same

-- A tree that was not seen, with the entries of its bases
abbrev pub emit_tree : CommitId → TreeWalk → TreeWalk
emit_tree id w = record w {
  out = record (w.out) { emitted = w.out.emitted ++ (id, WireObjectKind.tree_object) ∷ [] };
}

unfoldable pub visit_tree :
    GitObjects
    → List CommitId
    → Emitting
    → CommitId
    → List CommitId
    → Waiting
    → Result ClosureError TreeWalk
visit_tree git bases out id subtree_bases stack = elim (has_id id out.seen) [
  | true ↦ ok (record { out = out; stack = stack })
  | false ↦ find_tree git id >>= λ entries. find_all git subtree_bases >>= λ base_trees.
      let start : TreeWalk = record { out = record out { seen = id ∷ out.seen }; stack = stack } in
      ok (emit_tree id (foldl (walk_entry bases base_trees) start entries))
]

unfoldable pub walk_stack :
    GitObjects → List CommitId → ℕ → Emitting → Waiting → Result ClosureError Emitting
walk_stack git bases zero out stack = ok out
walk_stack git bases (suc fuel) out [] = ok out
walk_stack git bases (suc fuel) out ((id, subtree_bases) ∷ stack) =
    visit_tree git bases out id subtree_bases stack >>= λ w. walk_stack git bases fuel w.out w.stack

abbrev pub all_entries : BTreeMap CommitId (List TreeEntry) → ℕ
all_entries [] = 0
all_entries (e ∷ es) = length (e.1) + all_entries es

-- `walk_tree`
unfoldable pub walk_tree :
    GitObjects → CommitId → List CommitId → Emitting → Result ClosureError Emitting
walk_tree git root bases out =
    if has_id root bases
    then ok out
    else walk_stack git bases (all_entries git.trees + 1) out ((root, bases) ∷ [])

-- The variables of `walk_git_closure`: the trees of the versions of each change, and what was emitted
pub record CommitWalk : Type 0 where
  pub versions : BTreeMap Text (List CommitId)
  pub out : Emitting

abbrev pub read_commit : GitObjects → CommitId → Result ClosureError GitCommit
read_commit git id = elim (get id git.commits) [ none ↦ err missing_commit | some c ↦ ok c ]

abbrev pub or_empty : Option (List CommitId) → List CommitId
or_empty none = []
or_empty (some trees) = trees

-- `versions.entry(change).or_default().push(tree)`
abbrev pub add_version :
    BTreeMap Text (List CommitId) → Option Text → CommitId → BTreeMap Text (List CommitId)
add_version versions none tree_id = versions
add_version versions (some change) tree_id =
    insert change (or_empty (get change versions) ++ tree_id ∷ []) versions

abbrev pub versions_of : BTreeMap Text (List CommitId) → Option Text → List CommitId
versions_of versions none = []
versions_of versions (some change) = or_empty (get change versions)

-- The haves that can be read serve as bases.
unfoldable pub held_versions : GitObjects → List CommitId → BTreeMap Text (List CommitId)
held_versions git haves =
    foldl
      (λ versions have. elim (read_commit git have) [
        | err e ↦ versions
        | ok c ↦ add_version versions c.change c.tree
      ])
      [] (keep (λ id. not (is_virtual_root id)) haves)

-- The bases of a commit: at most eight trees, each once. A parent that is not reached is not read.
unfoldable pub collect_bases :
    List CommitId → List (Result ClosureError CommitId) → Result ClosureError (List CommitId)
collect_bases bases [] = ok bases
collect_bases bases (r ∷ rs) = r >>= λ base. elim (length bases == max_bases) [
  | true ↦ ok bases
  | false ↦ collect_bases (if has_id base bases then bases else bases ++ base ∷ []) rs
]

abbrev pub parent_trees : GitObjects → List CommitId → List (Result ClosureError CommitId)
parent_trees git parents = map (λ p. read_commit git p >>= λ c. ok c.tree) parents

unfoldable pub emit_commit : GitObjects → CommitWalk → CommitId → Result ClosureError CommitWalk
emit_commit git w id = do
  c ← read_commit git id
  bases ←
      collect_bases []
        (parent_trees git c.parents ++ map (λ t. ok t) (versions_of w.versions c.change))
  out ← walk_tree git c.tree bases w.out
  ok (record {
    versions = add_version w.versions c.change c.tree;
    out = record out { emitted = out.emitted ++ (id, WireObjectKind.commit_object) ∷ [] };
  })

abbrev pub emit_commits : GitObjects → CommitWalk → List CommitId → Result ClosureError CommitWalk
emit_commits git w [] = ok w
emit_commits git w (id ∷ ids) = do next ← emit_commit git w id; emit_commits git next ids

-- `walk_git_closure` on the range of the commits. A failure does not tell what was emitted before it.
unfoldable pub walk_git_closure :
    GitObjects → List CommitId → List CommitId → Result ClosureError Emitted
walk_git_closure git haves commits = do
  last ←
      emit_commits git
        (record { versions = held_versions git haves; out = record { seen = []; emitted = [] } })
        (keep (λ id. not (is_virtual_root id)) commits)
  ok last.out.emitted
