-- ===== src/Repo/Transfer/Closure/Emits.antt =====
-- The lemmas on what the walk over a tree emits.
use mathlib.Core.List.{Memᴰ}
use jj_mesh.Prelude.{
  >>=-eq-ok, ok, get, nat_ord, bool_ord, pair_ord, list_ord, option_ord, reverse_ord, Bool-cases, ℕ,
  zero, suc, ◌+◌, ◌≡◌, refl, sym, inl, inr, Bool, true, false, ◌&&◌, ◌||◌, List, [], ◌∷◌, ◌++◌,
  foldl, arith,
}
use jj_mesh.Config.Machine.{text_eq, text_eq_sound}
use jj_mesh.Repo.Codec.Messages.{CommitId}
use jj_mesh.Repo.Codec.Ids.{has_id}
use jj_mesh.Net.Fetch.{WireObjectKind}
use jj_mesh.Repo.Transfer.Closure.Defs.{
  Emitted, Waiting, find_tree, find_all, same_entries, new_entry, walk_entry, emit_tree, visit_tree,
  walk_stack, all_entries, walk_tree, EntryMode, TreeEntry, GitObjects, Emitting, TreeWalk,
}
use jj_mesh.Repo.Transfer.Closure.Tree.{tree_or_lem, IsTyped}

-- The kind of the object that an entry of that mode names
unfoldable pub is_kind : EntryMode → WireObjectKind → Bool
is_kind EntryMode.tree_mode WireObjectKind.tree_object = true
is_kind EntryMode.blob_mode WireObjectKind.blob_object = true
is_kind mode kind = false

-- It was emitted, with its kind.
abbrev pub was_sent : (CommitId → EntryMode) → Emitted → CommitId → Bool
was_sent mode_of [] x = false
was_sent mode_of (e ∷ es) x =
    (text_eq x (e.0) && is_kind (mode_of x) (e.1)) || was_sent mode_of es x

or-false : (b : Bool) → (b || false) ≡ b
or-false true = refl
or-false false = refl

or-or : (a w b c : Bool) → c ≡ (w || b) → (a || c) ≡ ((a || w) || b)
or-or true w b c h = refl
or-or false w b c h = h

was_sent-append :
    (mode_of : CommitId → EntryMode) (es : Emitted) (id x : CommitId) (kind : WireObjectKind)
    → was_sent mode_of (es ++ (id, kind) ∷ []) x
      ≡ (was_sent mode_of es x || (text_eq x id && is_kind (mode_of x) kind))
was_sent-append mode_of [] id x kind = or-false (text_eq x id && is_kind (mode_of x) kind)
was_sent-append mode_of (e ∷ es) id x kind =
    or-or (text_eq x (e.0) && is_kind (mode_of x) (e.1)) (was_sent mode_of es x)
      (text_eq x id && is_kind (mode_of x) kind) (was_sent mode_of (es ++ (id, kind) ∷ []) x)
      (was_sent-append mode_of es id x kind)

sent_now :
    (mode_of : CommitId → EntryMode) (es : Emitted) (id x : CommitId) (kind : WireObjectKind)
    → is_kind (mode_of id) kind ≡ true
    → (was_sent mode_of es x || text_eq x id) ≡ true
    → was_sent mode_of (es ++ (id, kind) ∷ []) x ≡ true
sent_now mode_of es id x kind k h = elim (Bool-cases (text_eq x id)) [
  | inl here ↦
      let e = text_eq_sound x id here in
      ground (arith, was_sent-append mode_of es id x kind, rw (sym e) at k)
  | inr other ↦ ground (arith, was_sent-append mode_of es id x kind)
]

module _ (git : GitObjects) (typed : IsTyped git) where
  -- What was seen was emitted, but for the tree that is visited.
  abbrev EmitsBut : List CommitId → Emitting → Type 0
  EmitsBut visited out =
      (x : CommitId)
      → has_id x out.seen ≡ true
      → (was_sent typed.mode_of out.emitted x || has_id x visited) ≡ true

  -- All that was seen was emitted, with its kind.
  abbrev pub IsEmitting : Emitting → Type 0
  IsEmitting out =
      (x : CommitId) → has_id x out.seen ≡ true → was_sent typed.mode_of out.emitted x ≡ true

  new_entry_emits :
      (visited bases : List CommitId) (w : TreeWalk) (e : TreeEntry) (mode : EntryMode)
      (same : List CommitId)
      → mode ≡ typed.mode_of e.oid
      → EmitsBut visited w.out
      → EmitsBut visited (new_entry bases w e mode same).out
  unfolding is_kind
  new_entry_emits visited bases w e EntryMode.link_mode same t s = s
  new_entry_emits visited bases w e EntryMode.tree_mode same t s = s
  new_entry_emits visited bases w e EntryMode.blob_mode same t s =
      elim (Bool-cases (has_id e.oid w.out.seen)) [
        | inl old ↦ rw old s
        | inr new ↦ rw new (λ x h. elim (Bool-cases (has_id x visited)) [
          | inl here ↦ ground arith
          | inr there ↦ ground (
            arith,
            s x,
            sent_now typed.mode_of w.out.emitted e.oid x WireObjectKind.blob_object (rw (sym t)),
          )
        ])
      ]

  walk_entry_emits :
      (visited bases : List CommitId) (base_trees : List (List TreeEntry)) (w : TreeWalk)
      (e : TreeEntry)
      → e.mode ≡ typed.mode_of e.oid
      → EmitsBut visited w.out
      → EmitsBut visited (walk_entry bases base_trees w e).out
  unfolding walk_entry
  walk_entry_emits visited bases base_trees w e t s =
      let same = same_entries e base_trees in
      elim (Bool-cases (has_id e.oid same)) [
        | inl found ↦ rw found s
        | inr new ↦ rw new (new_entry_emits visited bases w e e.mode same t s)
      ]

  entries_emits :
      (visited bases : List CommitId) (base_trees : List (List TreeEntry)) (w : TreeWalk)
      (es : List TreeEntry)
      → ((e : TreeEntry) → Memᴰ e es → e.mode ≡ typed.mode_of e.oid)
      → EmitsBut visited w.out
      → EmitsBut visited (foldl (walk_entry bases base_trees) w es).out
  entries_emits visited bases base_trees w [] t s = s
  entries_emits visited bases base_trees w (e ∷ es) t s =
      entries_emits visited bases base_trees (walk_entry bases base_trees w e) es
        (λ x m. t x (Memᴰ.tail m))
        (walk_entry_emits visited bases base_trees w e (t e (Memᴰ.head refl)) s)

  visit_emits :
      (bases : List CommitId) (out : Emitting) (id : CommitId) (subtree_bases : List CommitId)
      (stack : Waiting) (w : TreeWalk)
      → IsEmitting out
      → visit_tree git bases out id subtree_bases stack ≡ ok w
      → IsEmitting w.out
  unfolding visit_tree is_kind
  visit_emits bases out id subtree_bases stack w s h = elim (Bool-cases (has_id id out.seen)) [
    | inl old ↦
        let e : record { out = out; stack = stack } ≡ w =
          ground (arith, rw (old, visit_tree) at h) in
        rw (← e) s
    | inr new ↦
        let (entries, e, h₁) = >>=-eq-ok (find_tree git id) _ (rw (new, visit_tree) at h) in
        let (base_trees, f, h₂) = >>=-eq-ok (find_all git subtree_bases) _ h₁ in
        let stored = tree_or_lem (get id git.trees) entries e in
        let begin : TreeWalk = record {
          out = record out { seen = id ∷ out.seen };
          stack = stack;
        } in
        let last = foldl (walk_entry bases base_trees) begin entries in
        let ended : emit_tree id last ≡ w = ground arith in
        let all_but =
          entries_emits (id ∷ []) bases base_trees begin entries
            (λ en m. typed.of_entry id entries en stored m) (λ x k. ground (arith, s x)) in
        rw (← ended) (λ x k.
          sent_now typed.mode_of last.out.emitted id x WireObjectKind.tree_object
            (rw (typed.of_tree id entries stored)) (ground (arith, all_but x k)))
  ]

  walk_emits :
      (bases : List CommitId) (fuel : ℕ) (out last : Emitting) (stack : Waiting)
      → IsEmitting out
      → walk_stack git bases fuel out stack ≡ ok last
      → IsEmitting last
  unfolding walk_stack
  walk_emits bases zero out last stack s h = let e : out ≡ last = ground arith in rw (← e) s
  walk_emits bases (suc fuel) out last [] s h = let e : out ≡ last = ground arith in rw (← e) s
  walk_emits bases (suc fuel) out last ((id, sub) ∷ stack) s h =
      let (w, e, rest) = >>=-eq-ok (visit_tree git bases out id sub stack) _ h in
      walk_emits bases fuel w.out last w.stack (visit_emits bases out id sub stack w s e) rest

  pub walk_tree_emits :
      (root : CommitId) (bases : List CommitId) (out last : Emitting)
      → IsEmitting out
      → walk_tree git root bases out ≡ ok last
      → IsEmitting last
  unfolding walk_tree
  walk_tree_emits root bases out last s h = elim (Bool-cases (has_id root bases)) [
    | inl base ↦ let e : out ≡ last = ground (arith, rw base at h) in rw (← e) s
    | inr fresh ↦
        walk_emits bases (all_entries git.trees + 1) out last ((root, bases) ∷ []) s (rw fresh at h)
  ]
