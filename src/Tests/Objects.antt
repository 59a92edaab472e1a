-- ===== src/Tests/Objects.antt =====
-- The Git phase: objects that are received, and a tree that is walked.
use mathlib.Core.List.{Memᴰ}
use jj_mesh.Prelude.{
  ok, get, insert, eqb, eqb_sound, nat_ord, bool_ord, pair_ord, list_ord, option_ord, reverse_ord,
  ◌==◌, if◌then◌else◌, Bool-cases, length, All, ℕ, ◌≤◌, ◌≡◌, ◌↔◌, refl, sym, ap, ◌⊎◌, inl, inr,
  Bool, true, ◌||◌, some, List, [], ◌∷◌, ◌++◌, arith,
}
use jj_mesh.Config.Name.{take}
use jj_mesh.Config.Membership.Peers.{peer_register}
use jj_mesh.Config.Membership.Repos.{repo_register}
use jj_mesh.Config.Claims.{claims_register}
use jj_mesh.Daemon.Hub.Inbox.{holds}
use jj_mesh.Repo.Codec.Messages.{CommitId}
use jj_mesh.Repo.Codec.Ids.{has_id}
use jj_mesh.Repo.Store.Defs.{Bytes}
use jj_mesh.Net.Wire.{read_exact, read_message}
use jj_mesh.Net.Fetch.{decompress_payload, decompress_payload_iff, WireObjectKind, GitFrame}
use jj_mesh.Repo.Transfer.Loose.Defs.{
  GitStore, write_object, write_git_chunk, receive_git_frame, loose_rounds, receive_git_loose, Gix,
}
use jj_mesh.Repo.Transfer.Loose.Verified.{receive_git_loose_lem, Verified}
use jj_mesh.Repo.Transfer.Closure.Defs.{
  walk_entry, visit_tree, walk_stack, walk_tree, EntryMode, TreeEntry, GitObjects, Emitting,
}
use jj_mesh.Repo.Transfer.Closure.Tree.{ClosedUnder, IsTyped}
use jj_mesh.Repo.Transfer.Closure.Laws.{walk_tree_lem, IsComplete, InTree, holds_or_sent}
use jj_mesh.Tests.Transfer.{encode_git, codecs, framed}

abbrev pub gix : Gix
gix = record { hash_len = 2; compute_hash = λ kind content. content }

abbrev pub blob_id : CommitId
blob_id = 5 ∷ 6 ∷ []

abbrev pub git_stream : Bytes
git_stream =
    framed (encode_git (GitFrame.object_frame blob_id WireObjectKind.blob_object blob_id))
    ++ framed (encode_git GitFrame.git_done)

abbrev pub git_after : GitStore
git_after = (blob_id, (WireObjectKind.blob_object, blob_id)) ∷ []

loose_received : receive_git_loose gix codecs [] git_stream ≡ ok (git_after, 1)
unfolding receive_git_loose loose_rounds receive_git_frame write_git_chunk write_object read_message
    read_exact decompress_payload insert get take
loose_received = refl

receive_git_loose_lem_example : Verified gix [] git_after
receive_git_loose_lem_example =
    receive_git_loose_lem gix codecs [] git_after git_stream 1 loose_received

decompress_payload_iff_example :
    (decompress_payload codecs.decoder blob_id 2 ≡ ok blob_id)
    ↔ ((codecs.decoder blob_id ≡ some (blob_id, true)) × (length blob_id ≤ 2))
decompress_payload_iff_example =
    decompress_payload_iff codecs.decoder blob_id blob_id 2 (omega arith)

-- The tree 1 holds the blobs 2 and 3 and a link; the fetcher has the tree 4, which holds the blob 2 too.
abbrev file : ℕ → ℕ → TreeEntry
file name id = record { mode = EntryMode.blob_mode; filename = name ∷ []; oid = id ∷ [] }

abbrev link : TreeEntry
link = record { mode = EntryMode.link_mode; filename = 9 ∷ []; oid = 9 ∷ [] }

abbrev old_entries : List TreeEntry
old_entries = file 7 2 ∷ []

abbrev new_entries : List TreeEntry
new_entries = file 7 2 ∷ file 8 3 ∷ link ∷ []

abbrev git : GitObjects
git = record { commits = []; trees = (1 ∷ [], new_entries) ∷ (4 ∷ [], old_entries) ∷ [] }

abbrev held : CommitId → Bool
held x = has_id x ((2 ∷ []) ∷ (4 ∷ []) ∷ [])

abbrev mode_by : ℕ → EntryMode
mode_by n =
    if n == 1 || n == 4
    then EntryMode.tree_mode
    else if n == 9
    then EntryMode.link_mode
    else EntryMode.blob_mode

abbrev mode_of : CommitId → EntryMode
mode_of [] = EntryMode.blob_mode
mode_of (n ∷ rest) = mode_by n

of_members :
    (P : TreeEntry → Type 0) (entries : List TreeEntry)
    → All P entries
    → (e : TreeEntry) → Memᴰ e entries
    → P e
of_members P [] holds e m = elim m [ ]
of_members P (x ∷ entries) holds e (Memᴰ.head same) = rw same (holds.0)
of_members P (x ∷ entries) holds e (Memᴰ.tail later) = of_members P entries (holds.1) e later

-- A tree that is found is one of the two.
found_tree :
    (id : CommitId) (entries : List TreeEntry)
    → get id git.trees ≡ some entries
    → ((id ≡ 1 ∷ []) × (entries ≡ new_entries)) ⊎ ((id ≡ 4 ∷ []) × (entries ≡ old_entries))
unfolding get
found_tree id entries h = elim (Bool-cases (eqb (1 ∷ []) id)) [
  | inl one ↦ inl (sym (eqb_sound (1 ∷ []) id one), ground arith)
  | inr other ↦ elim (Bool-cases (eqb (4 ∷ []) id)) [
    | inl four ↦ inr (sym (eqb_sound (4 ∷ []) id four), ground arith)
    | inr neither ↦ absurd (ground arith)
  ]
]

typed : IsTyped git
typed = record {
  mode_of = mode_of;
  of_entry = λ id entries e g m. elim (found_tree id entries g) [
    | inl new ↦
        of_members (λ x. x.mode ≡ mode_of x.oid) new_entries (refl, (refl, (refl, tt))) e
          (rw (← new.1) m)
    | inr old ↦ of_members (λ x. x.mode ≡ mode_of x.oid) old_entries (refl, tt) e (rw (← old.1) m)
  ];
  of_tree = λ id entries g. elim (found_tree id entries g) [
    | inl new ↦ ap mode_of (new.0)
    | inr old ↦ ap mode_of (old.0)
  ];
}

held_closed : ClosedUnder git held held held
held_closed id entries e h g m k = elim (found_tree id entries g) [
  | inl new ↦ absurd (ground (arith, ap held (new.0)))
  | inr old ↦ of_members (λ x. held x.oid ≡ true) old_entries (refl, tt) e (rw (← old.1) m)
]

abbrev nothing : Emitting
nothing = record { seen = []; emitted = [] }

abbrev walked : Emitting
walked = record {
  seen = (3 ∷ []) ∷ (1 ∷ []) ∷ [];
  emitted = (3 ∷ [], WireObjectKind.blob_object) ∷ (1 ∷ [], WireObjectKind.tree_object) ∷ [];
}

tree_walked : walk_tree git (1 ∷ []) ((4 ∷ []) ∷ []) nothing ≡ ok walked
unfolding walk_tree walk_stack visit_tree walk_entry get
tree_walked = refl

walk_tree_lem_example :
    IsComplete git held typed walked
    × ((x : CommitId) → InTree git (1 ∷ []) x → holds_or_sent typed.mode_of held walked x ≡ true)
walk_tree_lem_example =
    walk_tree_lem git held (1 ∷ []) ((4 ∷ []) ∷ []) nothing walked typed held_closed
      (record {
        closed = λ id entries e n g m k. absurd (ground arith);
        emits = λ x h. absurd (ground arith);
      })
      refl tree_walked
