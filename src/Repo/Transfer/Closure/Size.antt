-- ===== src/Repo/Transfer/Closure/Size.antt =====
-- The measure of the walk over a tree.
use jj_mesh.Prelude.{
  BTreeMap, get, nat_ord, bool_ord, pair_ord, list_ord, option_ord, reverse_ord, if◌then◌else◌,
  Bool-cases, length, ℕ, ◌+◌, ◌≤◌, ◌≡◌, refl, inl, inr, false, some, List, [], ◌∷◌, foldl, arith,
}
use jj_mesh.Config.Machine.{text_eq_sound}
use jj_mesh.Repo.Codec.Messages.{CommitId}
use jj_mesh.Repo.Codec.Ids.{has_id}
use jj_mesh.Repo.Sets.{Subset, text_eq_refl}
use jj_mesh.Repo.Transfer.Closure.Defs.{
  same_entries, new_entry, walk_entry, all_entries, EntryMode, TreeEntry, TreeWalk,
}

-- The entries of the trees that were not seen
pub entries_left : List CommitId → BTreeMap CommitId (List TreeEntry) → ℕ
entries_left seen [] = 0
entries_left seen (e ∷ es) = (if has_id (e.0) seen then 0 else length (e.1)) + entries_left seen es

pub entries_left-Subset :
    (seen more : List CommitId) (m : BTreeMap CommitId (List TreeEntry))
    → Subset seen more
    → entries_left more m ≤ entries_left seen m
unfolding entries_left
entries_left-Subset seen more [] s = omega arith
entries_left-Subset seen more (e ∷ es) s =
    ground (arith, entries_left-Subset seen more es s, s (e.0))

pub entries_left-cons :
    (id : CommitId) (seen : List CommitId) (m : BTreeMap CommitId (List TreeEntry))
    (entries : List TreeEntry)
    → has_id id seen ≡ false
    → get id m ≡ some entries
    → entries_left (id ∷ seen) m + length entries ≤ entries_left seen m
unfolding entries_left get
entries_left-cons id seen [] entries h g = cc
entries_left-cons id seen (e ∷ es) entries h g = ground (
  arith,
  entries_left-cons id seen es entries h,
  entries_left-Subset seen (id ∷ seen) es (λ x m. ground arith),
  text_eq_sound (e.0) id,
  text_eq_refl id,
)

pub entries_left-nil : (m : BTreeMap CommitId (List TreeEntry)) → entries_left [] m ≡ all_entries m
unfolding entries_left
entries_left-nil [] = refl
entries_left-nil (e ∷ es) = omega (arith, entries_left-nil es)

-- An entry adds one element at most to the stack, and forgets nothing.
new_entry_size :
    (bases : List CommitId) (w : TreeWalk) (e : TreeEntry) (mode : EntryMode) (same : List CommitId)
    → let v = new_entry bases w e mode same in
      (length v.stack ≤ length w.stack + 1) × Subset w.out.seen v.out.seen
new_entry_size bases w e EntryMode.link_mode same = (omega arith, λ x h. h)
new_entry_size bases w e EntryMode.tree_mode same = (omega arith, λ x h. h)
new_entry_size bases w e EntryMode.blob_mode same = elim (Bool-cases (has_id e.oid w.out.seen)) [
  | inl old ↦ rw old (omega arith, λ x h. h)
  | inr new ↦ rw new (omega arith, λ x h. ground arith)
]

walk_entry_size :
    (bases : List CommitId) (base_trees : List (List TreeEntry)) (w : TreeWalk) (e : TreeEntry)
    → let v = walk_entry bases base_trees w e in
      (length v.stack ≤ length w.stack + 1) × Subset w.out.seen v.out.seen
unfolding walk_entry
walk_entry_size bases base_trees w e =
    let same = same_entries e base_trees in
    elim (Bool-cases (has_id e.oid same)) [
      | inl found ↦ rw found (omega arith, λ x h. h)
      | inr new ↦ rw new (new_entry_size bases w e e.mode same)
    ]

pub fold_size :
    (bases : List CommitId) (base_trees : List (List TreeEntry)) (w : TreeWalk)
    (es : List TreeEntry)
    → let v = foldl (walk_entry bases base_trees) w es in
      (length v.stack ≤ length w.stack + length es) × Subset w.out.seen v.out.seen
fold_size bases base_trees w [] = (omega arith, λ x h. h)
fold_size bases base_trees w (e ∷ es) =
    let mid = walk_entry bases base_trees w e in
    let (a, t) = walk_entry_size bases base_trees w e in
    let (n, s) = fold_size bases base_trees mid es in (omega (arith, n, a), λ x h. s x (t x h))
