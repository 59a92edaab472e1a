-- ===== src/Repo/Store/Heads.antt =====
-- `missing_heads`: the announced heads that a fetch has to obtain or to publish.
use jj_mesh.Prelude.{
  ◌>>=◌, >>=-eq-ok, Result, ok, err, nat_ord, bool_ord, pair_ord, list_ord, option_ord, reverse_ord,
  Bool-cases, is_empty, keep, ℕ, zero, suc, ◌≡◌, ◌∙◌, ◌⊎◌, inl, inr, true, false, not, ◌&&◌, List,
  [], ◌∷◌, ◌++◌, arith,
}
use jj_mesh.Config.Machine.{text_eq, text_eq_sound}
use jj_mesh.Repo.Codec.Messages.{CommitId, Operation}
use jj_mesh.Repo.Codec.Ids.{has_id}
use jj_mesh.Repo.Sets.{Subset, has_id-append, has_id-keep}
use jj_mesh.Repo.Store.Defs.{
  is_root, has_operation, read_operation, rev, OpStoreError, OpenRepo, Jj,
}
use jj_mesh.Repo.Store.Walk.{
  Reached-closed, rootless, push_parents, has_id-rootless, visited-push, stack-push, has_id-rev,
  Reached, Frontier,
}

abbrev pub walk_budget : ℕ
walk_budget = 65536

-- The announced heads that are not stored, and those that are
abbrev pub not_stored_heads : OpenRepo → List CommitId → List CommitId
not_stored_heads repo announced =
    keep (λ h. not (is_root repo h) && not (has_operation repo h)) announced

abbrev pub stored_heads : OpenRepo → List CommitId → List CommitId
stored_heads repo announced = keep (λ h. not (is_root repo h) && has_operation repo h) announced

abbrev pub without : CommitId → List CommitId → List CommitId
without id ids = keep (λ x. not (text_eq x id)) ids

module _ (jj : Jj) (repo : OpenRepo) where
  -- The loop over the stack: the stored heads that are not reached
  unfoldable pub walk_published :
      ℕ → List CommitId → List CommitId → List CommitId → Result OpStoreError (List CommitId)
  walk_published budget unreached visited [] = ok unreached
  walk_published zero unreached visited (current ∷ stack) = ok []
  walk_published (suc budget) unreached visited (current ∷ stack) =
      let left = without current unreached in
      elim (is_empty left) [
        | true ↦ ok []
        | false ↦ read_operation jj repo current >>= λ op.
            let f =
              push_parents repo.root (record { visited = visited; stack = stack }) op.parents in
            walk_published budget left f.visited f.stack
      ]

  unfoldable pub missing_heads : List CommitId → Result OpStoreError (List CommitId)
  missing_heads announced = do
    unreached ←
        walk_published walk_budget (stored_heads repo announced) repo.op_heads (rev repo.op_heads)
    let missing = not_stored_heads repo announced ++ unreached
    ok (keep (λ h. has_id h missing) announced)

-- The parents that jj reads of an operation
abbrev pub parents_read : CommitId → Result OpStoreError Operation → List CommitId
parents_read root (ok op) = rootless root op.parents
parents_read root (err e) = []

module _ (jj : Jj) (repo : OpenRepo) where
  abbrev pub parents_in : CommitId → List CommitId
  parents_in id = parents_read repo.root (read_operation jj repo id)

  -- What was visited waits on the stack, or is not among the heads in question and its parents are visited.
  abbrev Explored : List CommitId → List CommitId → List CommitId → Type 0
  Explored unreached visited stack =
      (x : CommitId)
      → has_id x visited ≡ true
      → (has_id x stack ≡ true) ⊎ ((has_id x unreached ≡ false) × Subset (parents_in x) visited)

  has_id-without :
      (x id : CommitId) (ids : List CommitId)
      → has_id x (without id ids) ≡ (has_id x ids && not (text_eq x id))
  has_id-without x id ids = has_id-rootless id x ids

  Explored-step :
      (unreached visited stack : List CommitId) (current : CommitId) (op : Operation)
      → read_operation jj repo current ≡ ok op
      → Explored unreached visited (current ∷ stack)
      → let f = push_parents repo.root (record { visited = visited; stack = stack }) op.parents in
        Explored (without current unreached) f.visited f.stack
  Explored-step unreached visited stack current op r h x v =
      let f : Frontier = record { visited = visited; stack = stack } in
      let more = λ (y : CommitId). visited-push repo.root y f op.parents in
      let waits = stack-push repo.root x f op.parents in
      let gone = has_id-without x current unreached in
      elim (Bool-cases (text_eq x current)) [
        | inl e ↦
            inr
              (ground arith, λ y m. ground (arith, more y, rw (text_eq_sound x current e, r) at m))
        | inr e ↦ elim (Bool-cases (has_id x visited)) [
          | inl old ↦ elim (h x old) [
            | inl on ↦ inl (ground arith)
            | inr (n, s) ↦ inr (ground arith, λ y m. ground (arith, more y, s y m))
          ]
          | inr new ↦ inl (ground (arith, more x))
        ]
      ]

  closed_of :
      (unreached visited : List CommitId)
      → Explored unreached visited []
      → (u v : CommitId) → has_id u visited ≡ true
      → has_id v (parents_in u) ≡ true
      → has_id v visited ≡ true
  closed_of unreached visited h u v a b = elim (h u a) [ inl on ↦ cc | inr (n, c) ↦ c v b ]

  unreached_lem :
      (budget : ℕ) (unreached visited stack left : List CommitId) (x : CommitId)
      → Explored unreached visited stack
      → Subset repo.op_heads visited
      → walk_published jj repo budget unreached visited stack ≡ ok left
      → has_id x left ≡ true
      → (has_id x unreached ≡ true) × ¬ Reached parents_in repo.op_heads x
  unfolding walk_published
  unreached_lem budget unreached visited [] left x h s e m =
      let same : unreached ≡ left = ground arith in
      let there = rw (← same) at m in
      let seen = λ (r : Reached parents_in repo.op_heads x).
        Reached-closed parents_in repo.op_heads visited s (closed_of unreached visited h) r in
      (there, λ r. ground (arith, h x (seen r)))
  unreached_lem zero unreached visited (current ∷ stack) left x h s e m = ground arith
  unreached_lem (suc budget) unreached visited (current ∷ stack) left x h s e m =
      let f : Frontier = record { visited = visited; stack = stack } in
      elim (Bool-cases (is_empty (without current unreached))) [
        | inl none_left ↦ ground (arith, rw (none_left, walk_published) at e)
        | inr some_left ↦
            let (op, r, rest) =
              >>=-eq-ok (read_operation jj repo current) _ (rw (some_left, walk_published) at e) in
            let g = push_parents repo.root f op.parents in
            let (there, apart) =
              unreached_lem budget (without current unreached) g.visited g.stack left x
                (Explored-step unreached visited stack current op r h)
                (λ y n. ground (arith, visited-push repo.root y f op.parents, s y n)) rest m in
            (ground (arith, has_id-without x current unreached), apart)
      ]

module _ (repo : OpenRepo) (wanted result left : List CommitId) (x : CommitId) where
  reported_lem :
      {P : Type 0}
      → keep (λ z. has_id z (not_stored_heads repo wanted ++ left)) wanted ≡ result
      → (has_id x left ≡ true → (has_id x (stored_heads repo wanted) ≡ true) × P)
      → (has_id x result ≡ true
          → (has_id x wanted ≡ true)
            × (is_root repo x ≡ false)
            × ((has_operation repo x ≡ false) ⊎ P))
        × (has_id x wanted ≡ true
            → is_root repo x ≡ false
            → has_operation repo x ≡ false
            → has_id x result ≡ true)
  reported_lem same late =
      let listed =
        rw same at (has_id-keep (λ z. has_id z (not_stored_heads repo wanted ++ left)) x wanted) in
      let split = has_id-append x (not_stored_heads repo wanted) left in
      let gone = has_id-keep (λ z. not (is_root repo z) && not (has_operation repo z)) x wanted in
      let kept = has_id-keep (λ z. not (is_root repo z) && has_operation repo z) x wanted in
      (
        λ m. elim (Bool-cases (has_operation repo x)) [
          | inl b ↦ ground (arith, listed, split, gone, kept, late)
          | inr b ↦ ground (arith, listed, split, gone, kept)
        ],
        λ a n b. ground (arith, listed, split, gone),
      )

-- When the query succeeds, what it reports is announced, is not the root, and is not stored or, where it is
-- stored, is no ancestor of a published head; every announced operation that is not stored is reported.
pub missing_heads_lem :
    (jj : Jj) (repo : OpenRepo) (wanted result : List CommitId) (x : CommitId)
    → missing_heads jj repo wanted ≡ ok result
    → (has_id x result ≡ true
        → (has_id x wanted ≡ true)
          × (is_root repo x ≡ false)
          × ((has_operation repo x ≡ false) ⊎ ¬ Reached (parents_in jj repo) repo.op_heads x))
      × (has_id x wanted ≡ true
          → is_root repo x ≡ false
          → has_operation repo x ≡ false
          → has_id x result ≡ true)
unfolding missing_heads
missing_heads_lem jj repo wanted result x h =
    let heads = repo.op_heads in
    let candidates = stored_heads repo wanted in
    let (left, e, k) =
      >>=-eq-ok (walk_published jj repo walk_budget candidates heads (rev heads)) _ h in
    let fresh = λ (y : CommitId) (v : has_id y heads ≡ true). inl (has_id-rev y heads ∙ v) in
    let late =
      unreached_lem jj repo walk_budget candidates heads (rev heads) left x fresh (λ y v. v) e in
    reported_lem repo wanted result left x (ground arith) late
