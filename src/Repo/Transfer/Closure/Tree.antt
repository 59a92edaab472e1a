-- ===== src/Repo/Transfer/Closure/Tree.antt =====
-- What the fetcher holds of the trees, and the lemmas on `new_entry`.
use mathlib.Core.List.{Memᴰ}
use jj_mesh.Prelude.{
  ok, get, eqb, eqb_sound, nat_ord, bool_ord, pair_ord, list_ord, option_ord, reverse_ord,
  Bool-cases, Option-cases, all, All, ◌≡◌, refl, sym, ap, ◌∙◌, ◌⊎◌, inl, inr, Bool, true, false,
  ◌&&◌, ◌||◌, Option, none, some, List, [], ◌∷◌, arith,
}
use jj_mesh.Config.Name.{Text}
use jj_mesh.Config.Machine.{text_eq, text_eq_sound}
use jj_mesh.Repo.Codec.Messages.{CommitId}
use jj_mesh.Repo.Codec.Ids.{has_id}
use jj_mesh.Repo.Sets.{text_eq_refl}
use jj_mesh.Repo.Transfer.Closure.Defs.{
  Waiting, is_tree, tree_or, bisect_entry, same_entries, new_entry, EntryMode, TreeEntry,
  GitObjects, Emitting, TreeWalk,
}

-- The mode of an entry agrees with the type of the object that it names, which its id determines. A stored tree
-- whose entry has another mode does not meet this.
pub record IsTyped (git : GitObjects) : Type 0 where
  pub mode_of : CommitId → EntryMode
  pub of_entry :
      (id : CommitId) (entries : List TreeEntry) (e : TreeEntry)
      → get id git.trees ≡ some entries
      → Memᴰ e entries
      → e.mode ≡ mode_of e.oid
  pub of_tree :
      (id : CommitId) (entries : List TreeEntry)
      → get id git.trees ≡ some entries
      → mode_of id ≡ EntryMode.tree_mode

abbrev pub is_link : EntryMode → Bool
is_link EntryMode.link_mode = true
is_link EntryMode.tree_mode = false
is_link EntryMode.blob_mode = false

not_link : (m : EntryMode) → is_tree m ≡ true → is_link m ≡ false
not_link EntryMode.tree_mode h = refl
not_link EntryMode.blob_mode h = cc
not_link EntryMode.link_mode h = cc

pub tree_or_lem :
    (o : Option (List TreeEntry)) (entries : List TreeEntry)
    → tree_or o ≡ ok entries
    → o ≡ some entries
tree_or_lem none entries h = cc
tree_or_lem (some es) entries h = ground arith

module _ (git : GitObjects) (held : CommitId → Bool) where
  -- The objects in `has` that are trees have their entries there too, links aside.
  abbrev pub ClosedUnder : (CommitId → Bool) → (CommitId → Bool) → Type 0
  ClosedUnder inner has =
      (id : CommitId) (entries : List TreeEntry) (e : TreeEntry)
      → inner id ≡ true
      → get id git.trees ≡ some entries
      → Memᴰ e entries
      → is_link e.mode ≡ false
      → has e.oid ≡ true

  -- The fetcher holds it, or it was seen
  abbrev pub holds_or_seen : Emitting → CommitId → Bool
  holds_or_seen out x = held x || has_id x out.seen

  abbrev pub waiting_ids : Waiting → List CommitId
  waiting_ids [] = []
  waiting_ids (e ∷ es) = e.0 ∷ waiting_ids es

  abbrev pub in_walk : TreeWalk → CommitId → Bool
  in_walk w x = holds_or_seen w.out x || has_id x (waiting_ids w.stack)

  abbrev pub BasesHeld : Waiting → Type 0
  BasesHeld = All (λ e. all held (e.1) ≡ true)

  bisect_lem :
      (filename : Text) (as_tree : Bool) (es : List TreeEntry) (found : TreeEntry)
      → bisect_entry filename as_tree es ≡ some found
      → Memᴰ found es × (is_tree found.mode ≡ as_tree)
  bisect_lem filename as_tree [] found h = cc
  bisect_lem filename as_tree (e ∷ es) found h =
      elim (Bool-cases (text_eq e.filename filename && eqb (is_tree e.mode) as_tree)) [
        | inl hit ↦
            let same : e ≡ found = ground arith in
            rw (← same) (Memᴰ.head refl, eqb_sound (is_tree e.mode) as_tree (ground arith))
        | inr miss ↦
            let (m, t) = bisect_lem filename as_tree es found (ground arith) in (Memᴰ.tail m, t)
      ]

  module _ (typed : IsTyped git) where
    -- The entries of a tree that the fetcher holds
    pub record IsBaseTree (es : List TreeEntry) : Type 0 where
      pub entries_held : (e : TreeEntry) → Memᴰ e es → is_link e.mode ≡ false → held e.oid ≡ true
      pub entries_typed : (e : TreeEntry) → Memᴰ e es → e.mode ≡ typed.mode_of e.oid

    tree_held :
        (e found : TreeEntry) (es : List TreeEntry)
        → IsBaseTree es
        → e.mode ≡ EntryMode.tree_mode
        → bisect_entry e.filename (is_tree e.mode) es ≡ some found
        → held found.oid ≡ true
    tree_held e found es b h k =
        let (m, t) = bisect_lem e.filename (is_tree e.mode) es found k in
        b.entries_held found m (not_link found.mode (t ∙ ap is_tree h))

    pub same_tree_held :
        (e : TreeEntry) (bases : List (List TreeEntry))
        → All IsBaseTree bases
        → e.mode ≡ EntryMode.tree_mode
        → all held (same_entries e bases) ≡ true
    same_tree_held e [] b h = refl
    same_tree_held e (base ∷ bases) b h =
        elim (Option-cases (bisect_entry e.filename (is_tree e.mode) base)) [
          | inl k ↦ rw k (same_tree_held e bases (b.1) h)
          | inr (found, k) ↦
              rw (k, tree_held e found base (b.0) h k) (same_tree_held e bases (b.1) h)
        ]

    pub same_held :
        (e : TreeEntry) (bases : List (List TreeEntry))
        → All IsBaseTree bases
        → e.mode ≡ typed.mode_of e.oid
        → is_link e.mode ≡ false
        → has_id e.oid (same_entries e bases) ≡ true
        → held e.oid ≡ true
    same_held e [] b t n h = cc
    same_held e (base ∷ bases) b t n h =
        elim (Option-cases (bisect_entry e.filename (is_tree e.mode) base)) [
          | inl k ↦ same_held e bases (b.1) t n (rw (k, same_entries) at h)
          | inr (found, k) ↦ elim (Bool-cases (text_eq e.oid found.oid)) [
            | inl same ↦
                let oid = text_eq_sound e.oid found.oid same in
                let (m, _) = bisect_lem e.filename (is_tree e.mode) base found k in
                let mode : found.mode ≡ e.mode =
                  (b.0).entries_typed found m ∙ ap typed.mode_of (sym oid) ∙ sym t in
                rw oid ((b.0).entries_held found m (ap is_link mode ∙ n))
            | inr other ↦ same_held e bases (b.1) t n (ground (arith, rw (k, same_entries) at h))
          ]
        ]

    -- What the walk keeps while it goes through the entries of a tree
    pub record Progress (before after : TreeWalk) : Type 0 where
      pub grows : (x : CommitId) → in_walk before x ≡ true → in_walk after x ≡ true
      pub bases_held : BasesHeld before.stack → BasesHeld after.stack
      pub seen_typed :
          (x : CommitId)
          → has_id x after.out.seen ≡ true
          → (has_id x before.out.seen ≡ true) ⊎ (typed.mode_of x ≡ EntryMode.blob_mode)

    pub Progress-refl : (w : TreeWalk) → Progress w w
    Progress-refl w = record { grows = λ x h. h; bases_held = λ b. b; seen_typed = λ x h. inl h }

    pub new_entry_lem :
        (bases : List CommitId) (w : TreeWalk) (e : TreeEntry) (mode : EntryMode)
        (same : List CommitId)
        → e.mode ≡ mode
        → mode ≡ typed.mode_of e.oid
        → all held bases ≡ true
        → (mode ≡ EntryMode.tree_mode → all held same ≡ true)
        → let v = new_entry bases w e mode same in
          Progress w v × (is_link mode ≡ false → in_walk v e.oid ≡ true)
    new_entry_lem bases w e EntryMode.link_mode same m t b s = (Progress-refl w, λ n. cc)
    new_entry_lem bases w e EntryMode.tree_mode same m t b s = (
      record {
        grows = λ x h. ground arith;
        bases_held = λ held_before. (ground (arith, s refl), held_before);
        seen_typed = λ x h. inl h;
      },
      λ n. ground (arith, text_eq_refl e.oid),
    )
    new_entry_lem bases w e EntryMode.blob_mode same m t b s =
        elim (Bool-cases (has_id e.oid w.out.seen)) [
          | inl old ↦ rw old (Progress-refl w, λ n. ground arith)
          | inr new ↦ rw new (
            record {
              grows = λ x h. ground arith;
              bases_held = λ held_before. held_before;
              seen_typed = λ x h. elim (Bool-cases (text_eq x e.oid)) [
                | inl here ↦ inr (rw (text_eq_sound x e.oid here) (sym t))
                | inr other ↦ inl (ground arith)
              ];
            },
            λ n. ground (arith, text_eq_refl e.oid),
          )
        ]
