-- ===== src/Prelude/Order/Instances.antt =====
-- The orders that Rust's standard library derives: numbers, pairs, sequences, options, and
-- `cmp::Reverse`.
use Prim.Native.Nat.{ℕ, compare, Ordering}
use mathlib.Core.Path.{◌≡◌, refl, ap, sym}
use mathlib.Core.Bool.{Bool, true, false}
use mathlib.Core.Option.{Option, none, some}
use mathlib.Core.List.{List, [], ◌∷◌}
use native.Mathlib.Omega.{arith}
use jj_mesh.Prelude.Order.Defs.{Ord, flip, then_cmp}

-- Numbers.
pub compare_refl : (a : ℕ) → compare a a ≡ Ordering.eq
compare_refl a = ground arith

pub compare_eq : (a b : ℕ) → compare a b ≡ Ordering.eq → a ≡ b
compare_eq a b h = ground arith

pub compare-flip : (a b : ℕ) → compare b a ≡ flip (compare a b)
compare-flip a b = ground arith

pub compare_trans :
    (a b c : ℕ) → compare a b ≡ Ordering.lt → compare b c ≡ Ordering.lt → compare a c ≡ Ordering.lt
compare_trans a b c h k = ground arith

instance abbrev pub nat_ord : Ord ℕ
nat_ord = record {
  cmp = compare;
  cmp_refl = compare_refl;
  cmp_eq = compare_eq;
  cmp_flip = compare-flip;
  cmp_trans = compare_trans;
}

-- `false < true`.
abbrev pub cmp_bool : Bool → Bool → Ordering
cmp_bool false false = Ordering.eq
cmp_bool false true = Ordering.lt
cmp_bool true false = Ordering.gt
cmp_bool true true = Ordering.eq

pub cmp_bool_refl : (a : Bool) → cmp_bool a a ≡ Ordering.eq
cmp_bool_refl a = ground arith

pub cmp_bool_eq : (a b : Bool) → cmp_bool a b ≡ Ordering.eq → a ≡ b
cmp_bool_eq a b h = ground arith

pub cmp_bool-flip : (a b : Bool) → cmp_bool b a ≡ flip (cmp_bool a b)
cmp_bool-flip a b = ground arith

pub cmp_bool_trans :
    (a b c : Bool)
    → cmp_bool a b ≡ Ordering.lt
    → cmp_bool b c ≡ Ordering.lt
    → cmp_bool a c ≡ Ordering.lt
cmp_bool_trans a b c h k = ground arith

instance abbrev pub bool_ord : Ord Bool
bool_ord = record {
  cmp = cmp_bool;
  cmp_refl = cmp_bool_refl;
  cmp_eq = cmp_bool_eq;
  cmp_flip = cmp_bool-flip;
  cmp_trans = cmp_bool_trans;
}

-- Pairs, the first component first.
module _ {A B : Type 0} ⦃oa : Ord A⦄ ⦃ob : Ord B⦄ where
  abbrev pub cmp_pair : A × B → A × B → Ordering
  cmp_pair p q = then_cmp (oa.cmp p.0 q.0) (ob.cmp p.1 q.1)

  pub cmp_pair_refl : (p : A × B) → cmp_pair p p ≡ Ordering.eq
  cmp_pair_refl p = ground (arith, oa.cmp_refl p.0, ob.cmp_refl p.1)

  pub cmp_pair_eq : (p q : A × B) → cmp_pair p q ≡ Ordering.eq → p ≡ q
  cmp_pair_eq p q h = ground (arith, oa.cmp_eq p.0 q.0, ob.cmp_eq p.1 q.1)

  pub cmp_pair-flip : (p q : A × B) → cmp_pair q p ≡ flip (cmp_pair p q)
  cmp_pair-flip p q = ground (arith, oa.cmp_flip p.0 q.0, ob.cmp_flip p.1 q.1)

  pub cmp_pair_trans :
      (p q r : A × B)
      → cmp_pair p q ≡ Ordering.lt
      → cmp_pair q r ≡ Ordering.lt
      → cmp_pair p r ≡ Ordering.lt
  cmp_pair_trans p q r h k = ground (
    arith,
    oa.cmp_eq p.0 q.0,
    oa.cmp_eq q.0 r.0,
    oa.cmp_refl p.0,
    oa.cmp_trans p.0 q.0 r.0,
    ob.cmp_trans p.1 q.1 r.1,
  )

  instance abbrev pub pair_ord : Ord (A × B)
  pair_ord = record {
    cmp = cmp_pair;
    cmp_refl = cmp_pair_refl;
    cmp_eq = cmp_pair_eq;
    cmp_flip = cmp_pair-flip;
    cmp_trans = cmp_pair_trans;
  }

-- Sequences and ordered collections, lexicographically over their elements.
module _ {A : Type 0} ⦃o : Ord A⦄ where
  abbrev pub cmp_list : List A → List A → Ordering
  cmp_list [] [] = Ordering.eq
  cmp_list [] (y ∷ ys) = Ordering.lt
  cmp_list (x ∷ xs) [] = Ordering.gt
  cmp_list (x ∷ xs) (y ∷ ys) = then_cmp (o.cmp x y) (cmp_list xs ys)

  pub cmp_list_refl : (xs : List A) → cmp_list xs xs ≡ Ordering.eq
  cmp_list_refl [] = refl
  cmp_list_refl (x ∷ xs) = ground (arith, o.cmp_refl x, cmp_list_refl xs)

  pub cmp_list_eq : (xs ys : List A) → cmp_list xs ys ≡ Ordering.eq → xs ≡ ys
  cmp_list_eq [] [] h = refl
  cmp_list_eq [] (y ∷ ys) h = cc
  cmp_list_eq (x ∷ xs) [] h = cc
  cmp_list_eq (x ∷ xs) (y ∷ ys) h = ground (arith, o.cmp_eq x y, cmp_list_eq xs ys)

  pub cmp_list-flip : (xs ys : List A) → cmp_list ys xs ≡ flip (cmp_list xs ys)
  cmp_list-flip [] [] = refl
  cmp_list-flip [] (y ∷ ys) = refl
  cmp_list-flip (x ∷ xs) [] = refl
  cmp_list-flip (x ∷ xs) (y ∷ ys) = ground (arith, o.cmp_flip x y, cmp_list-flip xs ys)

  pub cmp_list_trans :
      (xs ys zs : List A)
      → cmp_list xs ys ≡ Ordering.lt
      → cmp_list ys zs ≡ Ordering.lt
      → cmp_list xs zs ≡ Ordering.lt
  cmp_list_trans (x ∷ xs) (y ∷ ys) (z ∷ zs) h k =
      ground (
        arith,
        o.cmp_eq x y,
        o.cmp_eq y z,
        o.cmp_refl x,
        o.cmp_trans x y z,
        cmp_list_trans xs ys zs,
      )
  cmp_list_trans xs ys zs h k = ground arith

  instance abbrev pub list_ord : Ord (List A)
  list_ord = record {
    cmp = cmp_list;
    cmp_refl = cmp_list_refl;
    cmp_eq = cmp_list_eq;
    cmp_flip = cmp_list-flip;
    cmp_trans = cmp_list_trans;
  }

  -- `None` before every `Some`.
  abbrev pub cmp_option : Option A → Option A → Ordering
  cmp_option none none = Ordering.eq
  cmp_option none (some b) = Ordering.lt
  cmp_option (some a) none = Ordering.gt
  cmp_option (some a) (some b) = o.cmp a b

  pub cmp_option_refl : (a : Option A) → cmp_option a a ≡ Ordering.eq
  cmp_option_refl none = refl
  cmp_option_refl (some a) = o.cmp_refl a

  pub cmp_option_eq : (a b : Option A) → cmp_option a b ≡ Ordering.eq → a ≡ b
  cmp_option_eq none none h = refl
  cmp_option_eq (some a) (some b) h = ap some (o.cmp_eq a b h)
  cmp_option_eq a b h = ground arith

  pub cmp_option-flip : (a b : Option A) → cmp_option b a ≡ flip (cmp_option a b)
  cmp_option-flip (some a) (some b) = o.cmp_flip a b
  cmp_option-flip a b = ground arith

  pub cmp_option_trans :
      (a b c : Option A)
      → cmp_option a b ≡ Ordering.lt
      → cmp_option b c ≡ Ordering.lt
      → cmp_option a c ≡ Ordering.lt
  cmp_option_trans (some a) (some b) (some c) h k = o.cmp_trans a b c h k
  cmp_option_trans a b c h k = ground arith

  instance abbrev pub option_ord : Ord (Option A)
  option_ord = record {
    cmp = cmp_option;
    cmp_refl = cmp_option_refl;
    cmp_eq = cmp_option_eq;
    cmp_flip = cmp_option-flip;
    cmp_trans = cmp_option_trans;
  }

-- `cmp::Reverse`
pub data Reverse (A : Type 0) : Type 0 where
  reverse : A → Reverse A

module _ {A : Type 0} ⦃o : Ord A⦄ where
  abbrev pub cmp_reverse : Reverse A → Reverse A → Ordering
  cmp_reverse (reverse a) (reverse b) = o.cmp b a

  pub cmp_reverse_refl : (a : Reverse A) → cmp_reverse a a ≡ Ordering.eq
  cmp_reverse_refl (reverse a) = o.cmp_refl a

  pub cmp_reverse_eq : (a b : Reverse A) → cmp_reverse a b ≡ Ordering.eq → a ≡ b
  cmp_reverse_eq (reverse a) (reverse b) h = ap reverse (sym (o.cmp_eq b a h))

  pub cmp_reverse-flip : (a b : Reverse A) → cmp_reverse b a ≡ flip (cmp_reverse a b)
  cmp_reverse-flip (reverse a) (reverse b) = o.cmp_flip b a

  pub cmp_reverse_trans :
      (a b c : Reverse A)
      → cmp_reverse a b ≡ Ordering.lt
      → cmp_reverse b c ≡ Ordering.lt
      → cmp_reverse a c ≡ Ordering.lt
  cmp_reverse_trans (reverse a) (reverse b) (reverse c) h k = o.cmp_trans c b a k h

  instance abbrev pub reverse_ord : Ord (Reverse A)
  reverse_ord = record {
    cmp = cmp_reverse;
    cmp_refl = cmp_reverse_refl;
    cmp_eq = cmp_reverse_eq;
    cmp_flip = cmp_reverse-flip;
    cmp_trans = cmp_reverse_trans;
  }
