-- ===== src/Prelude/Order/Defs.antt =====
-- Rust's `Ord` as an interface, and the laws of the tests that are read off it.
use Prim.Native.Nat.{Ordering}
use mathlib.Core.Path.{◌≡◌, refl}
use mathlib.Core.Logic.{◌↔◌}
use mathlib.Core.Bool.{Bool, true, false}
use native.Mathlib.Omega.{arith}

abbrev pub flip : Ordering → Ordering
flip Ordering.lt = Ordering.gt
flip Ordering.eq = Ordering.eq
flip Ordering.gt = Ordering.lt

-- A total order, as `Ord` documents it: `eq` is equality, the two directions mirror each other,
-- and `lt` is transitive.
pub record Ord (A : Type 0) : Type 0 where
  pub cmp : A → A → Ordering
  pub cmp_refl : (a : A) → cmp a a ≡ Ordering.eq
  pub cmp_eq : (a b : A) → cmp a b ≡ Ordering.eq → a ≡ b
  pub cmp_flip : (a b : A) → cmp b a ≡ flip (cmp a b)
  pub cmp_trans :
      (a b c : A) → cmp a b ≡ Ordering.lt → cmp b c ≡ Ordering.lt → cmp a c ≡ Ordering.lt

-- `a.cmp(&b).then(c.cmp(&d))`
abbrev pub then_cmp : Ordering → Ordering → Ordering
then_cmp Ordering.lt o = Ordering.lt
then_cmp Ordering.eq o = o
then_cmp Ordering.gt o = Ordering.gt

module _ {A : Type 0} ⦃o : Ord A⦄ where
  abbrev pub cmp : A → A → Ordering
  cmp = o.cmp

  abbrev pub eqb : A → A → Bool
  eqb a b = elim (o.cmp a b) [ Ordering.eq ↦ true | _ ↦ false ]

  abbrev pub gtb : A → A → Bool
  gtb a b = elim (o.cmp a b) [ Ordering.gt ↦ true | _ ↦ false ]

  pub eqb_refl : (a : A) → eqb a a ≡ true
  eqb_refl a = ground (arith, o.cmp_refl a)

  pub eqb_sound : (a b : A) → eqb a b ≡ true → a ≡ b
  eqb_sound a b h = o.cmp_eq a b (ground arith)

  pub eqb_iff : (a b : A) → (eqb a b ≡ true) ↔ (a ≡ b)
  eqb_iff a b = (eqb_sound a b, λ e. rw e (eqb_refl b))

  pub gtb_irrefl : (a : A) → gtb a a ≡ false
  gtb_irrefl a = ground (arith, o.cmp_refl a)

  pub gtb_asymm : (a b : A) → gtb a b ≡ true → gtb b a ≡ false
  gtb_asymm a b h = ground (arith, o.cmp_flip a b)

  pub gtb_trans : (a b c : A) → gtb a b ≡ true → gtb b c ≡ true → gtb a c ≡ true
  gtb_trans a b c h k =
      ground (arith, o.cmp_flip a b, o.cmp_flip b c, o.cmp_flip a c, o.cmp_trans c b a)

  pub gtb_total : (a b : A) → gtb a b ≡ false → gtb b a ≡ false → a ≡ b
  gtb_total a b h k = o.cmp_eq a b (ground (arith, o.cmp_flip a b))

  -- Equality is decidable.
  pub discrete : Discrete A
  discrete a b =
      elim (o.cmp a b) as (λ r. o.cmp a b ≡ r → Dec (a ≡ b)) [
        | Ordering.lt ↦ λ h. no (λ e. ground (arith, o.cmp_refl a))
        | Ordering.eq ↦ λ h. yes (o.cmp_eq a b h)
        | Ordering.gt ↦ λ h. no (λ e. ground (arith, o.cmp_refl a))
      ]
        refl
