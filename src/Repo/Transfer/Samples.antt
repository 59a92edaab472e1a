-- ===== src/Repo/Transfer/Samples.antt =====
-- `sample_haves` of src/repo/transfer/fetch.rs: some operations that the fetcher has, for the server to stop at.
use jj_mesh.Prelude.{
  ◌>>=◌, >>=-eq-ok, Result, ok, gtb, nat_ord, bool_ord, pair_ord, list_ord, option_ord, reverse_ord,
  ◌==◌, if◌then◌else◌, Bool-cases, length, ℕ, zero, suc, ◌+◌, ◌*◌, ◌≤◌, ◌≡◌, refl, ◌⊎◌, inl, inr,
  Bool, true, false, ◌||◌, List, [], ◌∷◌, ◌++◌, arith,
}
use jj_mesh.Config.Name.{take}
use jj_mesh.Config.Machine.{text_eq, text_eq_sound}
use jj_mesh.Repo.Codec.Messages.{CommitId}
use jj_mesh.Repo.Codec.Ids.{has_id}
use jj_mesh.Repo.Sets.{Subset, text_eq_refl, has_id_self, has_id-append}
use jj_mesh.Repo.Store.Defs.{is_root, read_operation, OpStoreError, OpenRepo, Jj}
use jj_mesh.Repo.Store.Walk.{has_id-rootless, Reached, start, step}
use jj_mesh.Repo.Store.Heads.{parents_in}
use jj_mesh.Net.Fetch.{max_haves}

abbrev pub sample_budget : ℕ
sample_budget = 128

-- `sort_unstable` on the bytes of the ids
abbrev pub put_sorted : CommitId → List CommitId → List CommitId
put_sorted x [] = x ∷ []
put_sorted x (y ∷ ys) = if gtb x y then y ∷ put_sorted x ys else x ∷ y ∷ ys

unfoldable pub sort : List CommitId → List CommitId
sort [] = []
sort (x ∷ xs) = put_sorted x (sort xs)

-- `dedup`: of equal neighbours one stays.
abbrev pub lead : CommitId → List CommitId → List CommitId
lead x [] = x ∷ []
lead x (y ∷ ys) = if text_eq x y then x ∷ ys else x ∷ y ∷ ys

unfoldable pub dedup : List CommitId → List CommitId
dedup [] = []
dedup (x ∷ xs) = lead x (dedup xs)

List-cases : {A : Type 0} (xs : List A) → (xs ≡ []) ⊎ ((x : A) × (rest : List A) × (xs ≡ x ∷ rest))
List-cases [] = inl refl
List-cases (x ∷ xs) = inr (x, xs, refl)

module _ (jj : Jj) (repo : OpenRepo) where
  -- The walk along first parents from one head: what is sampled, and the budget that is left
  unfoldable pub sample_from :
      ℕ → CommitId → ℕ → ℕ → List CommitId → Result OpStoreError (List CommitId × ℕ)
  sample_from zero current depth next_sample haves = ok (haves, 0)
  sample_from (suc budget) current depth next_sample haves =
      read_operation jj repo current >>= λ op. elim (op.parents) [
        | [] ↦ ok (haves, suc budget)
        | parent ∷ others ↦ elim (is_root repo parent) [
          | true ↦ ok (haves, suc budget)
          | false ↦
              let hit = (depth + 1) == next_sample in
              sample_from budget parent (depth + 1) (if hit then next_sample * 2 else next_sample)
                (if hit then haves ++ parent ∷ [] else haves)
        ]
      ]

  unfoldable pub sample_each :
      ℕ → List CommitId → List CommitId → Result OpStoreError (List CommitId)
  sample_each budget [] haves = ok haves
  sample_each budget (head ∷ heads) haves = do
    (more, left) ← sample_from budget head 0 1 haves
    sample_each left heads more

  unfoldable pub sample_haves : List CommitId → Result OpStoreError (List CommitId)
  sample_haves heads = do
    haves ← sample_each sample_budget heads heads
    ok (take max_haves (dedup (sort haves)))

  -- The haves are heads and ancestors of heads.
  abbrev pub FromHeads : List CommitId → List CommitId → Type 0
  FromHeads heads haves =
      (x : CommitId) → has_id x haves ≡ true → Reached (parents_in jj repo) heads x

  FromHeads-concat :
      (heads haves : List CommitId) (p : CommitId)
      → FromHeads heads haves
      → Reached (parents_in jj repo) heads p
      → FromHeads heads (haves ++ p ∷ [])
  FromHeads-concat heads haves p f r x h = elim (Bool-cases (has_id x haves)) [
    | inl old ↦ f x old
    | inr new ↦ rw (text_eq_sound x p (ground (arith, has_id-append x haves (p ∷ [])))) r
  ]

  sampled :
      (heads haves : List CommitId) (p : CommitId) (hit : Bool)
      → FromHeads heads haves
      → Reached (parents_in jj repo) heads p
      → FromHeads heads (if hit then haves ++ p ∷ [] else haves)
  sampled heads haves p true f r = FromHeads-concat heads haves p f r
  sampled heads haves p false f r = f

  sample_from_lem :
      (heads : List CommitId) (budget : ℕ) (current : CommitId) (depth next_sample : ℕ)
      (haves result : List CommitId) (left : ℕ)
      → Reached (parents_in jj repo) heads current
      → FromHeads heads haves
      → sample_from budget current depth next_sample haves ≡ ok (result, left)
      → FromHeads heads result
  unfolding sample_from
  sample_from_lem heads zero current depth next_sample haves result left r f h =
      let e : haves ≡ result = ground arith in rw e at f
  sample_from_lem heads (suc budget) current depth next_sample haves result left r f h =
      let (op, read, h₁) = >>=-eq-ok (read_operation jj repo current) _ h in
      elim (List-cases op.parents) [
        | inl first ↦ let e : haves ≡ result = ground (arith, rw first at h₁) in rw e at f
        | inr (p, ps, first) ↦ elim (Bool-cases (is_root repo p)) [
          | inl top ↦ let e : haves ≡ result = ground (arith, rw (first, top) at h₁) in rw e at f
          | inr inner ↦
              let listed : has_id p (parents_in jj repo current) ≡ true =
                rw (read, first)
                  (ground (arith, has_id-rootless repo.root p (p ∷ ps), text_eq_refl p)) in
              let up = step r listed in
              let hit = (depth + 1) == next_sample in
              sample_from_lem heads budget p (depth + 1)
                (if hit then next_sample * 2 else next_sample)
                (if hit then haves ++ p ∷ [] else haves) result left up
                (sampled heads haves p hit f up) (rw (first, inner) at h₁)
        ]
      ]

  sample_each_lem :
      (from : List CommitId) (budget : ℕ) (heads haves result : List CommitId)
      → Subset heads from
      → FromHeads from haves
      → sample_each budget heads haves ≡ ok result
      → FromHeads from result
  unfolding sample_each
  sample_each_lem from budget [] haves result s f h =
      let e : haves ≡ result = ground arith in rw e at f
  sample_each_lem from budget (head ∷ heads) haves result s f h =
      let ((more, left), e, h₁) = >>=-eq-ok (sample_from budget head 0 1 haves) _ h in
      sample_each_lem from left heads more result (λ x m. s x (ground arith))
        (sample_from_lem from budget head 0 1 haves more left
          (start (s head (has_id_self head heads))) f e)
        h₁

has_id-put :
    (z x : CommitId) (xs : List CommitId)
    → has_id z (put_sorted x xs) ≡ (text_eq z x || has_id z xs)
has_id-put z x [] = refl
has_id-put z x (y ∷ ys) = ground (arith, has_id-put z x ys)

has_id-sort : (z : CommitId) (xs : List CommitId) → has_id z (sort xs) ≡ has_id z xs
unfolding sort
has_id-sort z [] = refl
has_id-sort z (x ∷ xs) = ground (arith, has_id-sort z xs, has_id-put z x (sort xs))

has_id-lead :
    (z x : CommitId) (rest : List CommitId)
    → has_id z (lead x rest) ≡ true
    → (text_eq z x || has_id z rest) ≡ true
has_id-lead z x [] h = ground arith
has_id-lead z x (y ∷ ys) h = ground arith

has_id-dedup : (z : CommitId) (xs : List CommitId) → has_id z (dedup xs) ≡ true → has_id z xs ≡ true
unfolding dedup
has_id-dedup z [] h = h
has_id-dedup z (x ∷ xs) h = ground (arith, has_id-lead z x (dedup xs), has_id-dedup z xs)

length-take-le : (n : ℕ) (xs : List CommitId) → length (take n xs) ≤ n
unfolding take
length-take-le zero xs = omega arith
length-take-le (suc n) [] = omega arith
length-take-le (suc n) (x ∷ xs) = omega (arith, length-take-le n xs)

has_id-take :
    (n : ℕ) (z : CommitId) (xs : List CommitId) → has_id z (take n xs) ≡ true → has_id z xs ≡ true
unfolding take
has_id-take zero z xs h = cc
has_id-take (suc n) z [] h = cc
has_id-take (suc n) z (x ∷ xs) h = ground (arith, has_id-take n z xs)

-- When the sampling succeeds, it gives no more haves than a request may hold, and each is a head or an ancestor
-- of a head in the local store.
pub sample_haves_lem :
    (jj : Jj) (repo : OpenRepo) (heads haves : List CommitId)
    → sample_haves jj repo heads ≡ ok haves
    → (length haves ≤ max_haves) × FromHeads jj repo heads haves
unfolding sample_haves
sample_haves_lem jj repo heads haves h =
    let (found, e, made) = >>=-eq-ok (sample_each jj repo sample_budget heads heads) _ h in
    let sound =
      sample_each_lem jj repo heads sample_budget heads heads found (λ x m. m) (λ x m. start m) e in
    let same : take max_haves (dedup (sort found)) ≡ haves = ground arith in
    rw (← same) (
      length-take-le max_haves (dedup (sort found)),
      λ x m. sound x (
          ground (
            arith,
            has_id-take max_haves x (dedup (sort found)) m,
            has_id-dedup x (sort found),
            has_id-sort x found,
          )),
    )
