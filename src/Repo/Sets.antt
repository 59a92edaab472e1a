-- ===== src/Repo/Sets.antt =====
-- Lists of ids as the sets of src/repo: membership, and the comparison of two sets by their sizes.
use jj_mesh.Prelude.{
  eqb_refl, eqb_sound, nat_ord, bool_ord, pair_ord, list_ord, option_ord, reverse_ord,
  if◌then◌else◌, Bool-cases, length, all, keep, ◌+◌, ◌≤◌, ◌≡◌, refl, ◌∙◌, inl, inr, Bool, true,
  false, ◌&&◌, ◌||◌, List, [], ◌∷◌, ◌++◌, arith,
}
use jj_mesh.Config.Name.{Text}
use jj_mesh.Config.Machine.{text_eq}
use jj_mesh.Repo.Codec.Messages.{CommitId}
use jj_mesh.Repo.Codec.Ids.{has_id}

abbrev pub Subset : List CommitId → List CommitId → Type 0
Subset xs ys = (x : CommitId) → has_id x xs ≡ true → has_id x ys ≡ true

abbrev pub Distinct : List CommitId → Type 0
Distinct [] = Unit
Distinct (x ∷ xs) = (has_id x xs ≡ false) × Distinct xs

pub text_eq_refl : (x : Text) → text_eq x x ≡ true
text_eq_refl x = eqb_refl x

pub text_eq_sound : (x y : Text) → text_eq x y ≡ true → x ≡ y
text_eq_sound x y h = eqb_sound x y h

pub text_eq_sym : (x y : Text) → text_eq x y ≡ text_eq y x
text_eq_sym x y = ground (arith, text_eq_sound x y, text_eq_sound y x, text_eq_refl x)

pub has_id_self : (x : CommitId) (xs : List CommitId) → has_id x (x ∷ xs) ≡ true
has_id_self x xs = ground (arith, text_eq_refl x)

pub has_id-append :
    (x : CommitId) (xs ys : List CommitId) → has_id x (xs ++ ys) ≡ (has_id x xs || has_id x ys)
has_id-append x [] ys = refl
has_id-append x (z ∷ zs) ys = ground (arith, has_id-append x zs ys)

pub has_id-keep :
    (p : CommitId → Bool) (x : CommitId) (ids : List CommitId)
    → has_id x (keep p ids) ≡ (has_id x ids && p x)
has_id-keep p x [] = refl
has_id-keep p x (y ∷ ys) = ground (arith, has_id-keep p x ys, text_eq_sound x y)

erase : CommitId → List CommitId → List CommitId
erase x [] = []
erase x (y ∷ ys) = if text_eq x y then ys else y ∷ erase x ys

has_id-erase :
    (x y : CommitId) (ys : List CommitId)
    → text_eq y x ≡ false
    → has_id y (erase x ys) ≡ has_id y ys
unfolding erase
has_id-erase x y [] h = refl
has_id-erase x y (z ∷ zs) h = ground (arith, has_id-erase x y zs h, text_eq_sound x z)

length-erase :
    (x : CommitId) (ys : List CommitId) → has_id x ys ≡ true → length ys ≡ length (erase x ys) + 1
unfolding erase
length-erase x [] h = cc
length-erase x (y ∷ ys) h = ground (arith, length-erase x ys)

apart :
    (x y : CommitId) (xs : List CommitId)
    → has_id x xs ≡ false
    → has_id y xs ≡ true
    → text_eq y x ≡ false
apart x y xs n h = ground (arith, text_eq_sound y x)

pub length-Subset : (xs ys : List CommitId) → Distinct xs → Subset xs ys → length xs ≤ length ys
length-Subset [] ys d s = omega arith
length-Subset (x ∷ xs) ys d s =
    let smaller : Subset xs (erase x ys) =
      λ y h. has_id-erase x y ys (apart x y xs d.0 h) ∙ s y (ground arith) in
    omega
      (arith, length-Subset xs (erase x ys) d.1 smaller, length-erase x ys (s x (has_id_self x xs)))

-- A subset of the same size is the whole set.
pub Subset-all :
    (xs ys : List CommitId) → Distinct xs → Subset xs ys → length xs ≡ length ys → Subset ys xs
Subset-all xs ys d s e y h = elim (Bool-cases (has_id y xs)) [
  | inl k ↦ k
  | inr k ↦ absurd (
      omega
        (arith, length-Subset (y ∷ xs) ys (k, d) (λ z m. ground (arith, s z, text_eq_sound z y))))
]

pub all-has_id :
    (p : CommitId → Bool) (x : CommitId) (xs : List CommitId)
    → all p xs ≡ true
    → has_id x xs ≡ true
    → p x ≡ true
all-has_id p x [] h m = cc
all-has_id p x (y ∷ ys) h m = elim (Bool-cases (text_eq x y)) [
  | inl e ↦ rw (text_eq_sound x y e) (ground arith)
  | inr e ↦ all-has_id p x ys (ground arith) (ground arith)
]
