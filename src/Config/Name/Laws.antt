-- ===== src/Config/Name/Laws.antt =====
-- What validated and sanitized text looks like.
use jj_mesh.Prelude.{
  ltb_iff, ℕ, zero, suc, ◌+◌, ◌≤◌, ◌<◌, ◌≡◌, refl, ap, ◌∙◌, ◌↔◌, false, [], ◌∷◌, ◌++◌, ltb, any,
  length, length-append, ok, arith, All, Bool-cases, inl, inr,
}
use jj_mesh.Config.Error.{Kind}
use jj_mesh.Config.Name.Defs.{
  Text, take, len, max_name_len, max_sanitized_len, is_confusable, validate_name, mask, sanitize,
  sanitize_bounded,
}

-- No character of the text can hide or reorder what the user sees.
abbrev pub IsClean : Text → Type 0
IsClean = All (λ c. is_confusable c ≡ false)

IsClean-of_any : (t : Text) → any is_confusable t ≡ false → IsClean t
IsClean-of_any [] h = tt
IsClean-of_any (c ∷ t) h = ground (arith, IsClean-of_any t)

any_of_clean : (t : Text) → IsClean t → any is_confusable t ≡ false
any_of_clean [] h = refl
any_of_clean (c ∷ t) h = ground (arith, any_of_clean t h.1)

len_pos : (c : ℕ) (t : Text) → 0 < len (c ∷ t)
len_pos c t = ground arith

-- A name is accepted exactly when it is not empty, takes at most 64 bytes and is clean.
validate_name_iff :
    (kind : Kind) (name : Text)
    → (validate_name kind name ≡ ok tt)
      ↔ ((0 < len name) × (len name ≤ max_name_len) × IsClean name)
unfolding validate_name
validate_name_iff kind [] = (λ h. cc, λ h. absurd (omega arith))
validate_name_iff kind (c ∷ t) = (
  λ h. ground (arith, len_pos c t, IsClean-of_any (c ∷ t)),
  λ h. ground (arith, any_of_clean (c ∷ t) h.2, h.1),
)

mask_clean : (c : ℕ) → is_confusable (mask c) ≡ false
unfolding mask is_confusable
mask_clean c = ground arith

mask_self : (c : ℕ) → is_confusable c ≡ false → mask c ≡ c
unfolding mask
mask_self c h = ground arith

pub sanitize-IsClean : (t : Text) → IsClean (sanitize t)
unfolding sanitize
sanitize-IsClean [] = tt
sanitize-IsClean (c ∷ t) = (mask_clean c, sanitize-IsClean t)

pub sanitize_self : (t : Text) → IsClean t → sanitize t ≡ t
unfolding sanitize
sanitize_self [] h = refl
sanitize_self (c ∷ t) h = ground (arith, mask_self c h.0, sanitize_self t h.1)

pub length-sanitize : (t : Text) → length (sanitize t) ≡ length t
unfolding sanitize
length-sanitize [] = refl
length-sanitize (c ∷ t) = ap suc (length-sanitize t)

take-IsClean : (n : ℕ) (t : Text) → IsClean t → IsClean (take n t)
unfolding take
take-IsClean zero t h = tt
take-IsClean (suc n) [] h = tt
take-IsClean (suc n) (c ∷ t) h = (h.0, take-IsClean n t h.1)

append-IsClean : (s t : Text) → IsClean s → IsClean t → IsClean (s ++ t)
append-IsClean [] t hs ht = ht
append-IsClean (c ∷ s) t hs ht = (hs.0, append-IsClean s t hs.1 ht)

length-take : (n : ℕ) (t : Text) → n ≤ length t → length (take n t) ≡ n
unfolding take
length-take zero t h = refl
length-take (suc n) [] h = absurd (omega arith)
length-take (suc n) (c ∷ t) h = omega (arith, length-take n t)

ellipsis_clean : is_confusable 0x2026 ≡ false
unfolding is_confusable
ellipsis_clean = refl

bounded-IsClean : (t : Text) → IsClean (sanitize_bounded t)
unfolding sanitize_bounded
bounded-IsClean t = elim (Bool-cases (ltb max_sanitized_len (length (sanitize t)))) [
  | inl long ↦ rw long (
      append-IsClean (take max_sanitized_len (sanitize t)) (0x2026 ∷ [])
        (take-IsClean max_sanitized_len (sanitize t) (sanitize-IsClean t)) (ellipsis_clean, tt))
  | inr short ↦ rw short (sanitize-IsClean t)
]

length-cut : (n : ℕ) (t : Text) → n ≤ length t → length (take n t ++ 0x2026 ∷ []) ≡ n + 1
length-cut n t h = omega (arith, length-append (take n t) (0x2026 ∷ []), length-take n t h)

bounded_length : (t : Text) → length (sanitize_bounded t) ≤ max_sanitized_len + 1
unfolding sanitize_bounded
bounded_length t = elim (Bool-cases (ltb max_sanitized_len (length (sanitize t)))) [
  | inl long ↦ rw long (omega (arith, length-cut max_sanitized_len (sanitize t) (ground arith)))
  | inr short ↦ rw short (ground arith)
]

take-append : (n : ℕ) (t u : Text) → length t ≡ n → take n (t ++ u) ≡ t
unfolding take
take-append zero [] u h = refl
take-append zero (c ∷ t) u h = absurd (omega arith)
take-append (suc n) [] u h = absurd (omega arith)
take-append (suc n) (c ∷ t) u h = ap (◌∷◌ c) (take-append n t u (omega arith))

bounded_long :
    (t : Text)
    → max_sanitized_len < length t
    → IsClean t
    → sanitize_bounded t ≡ take max_sanitized_len t ++ 0x2026 ∷ []
unfolding sanitize_bounded
bounded_long t h clean = rw (sanitize_self t clean, (ltb_iff max_sanitized_len (length t)).1 h)

bounded_short : (t : Text) → length t ≤ max_sanitized_len → IsClean t → sanitize_bounded t ≡ t
unfolding sanitize_bounded
bounded_short t h clean = rw (sanitize_self t clean) (ground arith)

-- A cut text is cut again to itself.
bounded_of_cut : (n : ℕ) (t u : Text) → n ≤ length t → take n (take n t ++ u) ++ u ≡ take n t ++ u
bounded_of_cut n t u h = ap (λ s. s ++ u) (take-append n (take n t) u (length-take n t h))

bounded_again : (t : Text) → IsClean t → sanitize_bounded (sanitize_bounded t) ≡ sanitize_bounded t
bounded_again t clean = elim (Bool-cases (ltb max_sanitized_len (length t))) [
  | inl long ↦
      let k = (ltb_iff max_sanitized_len (length t)).0 long in
      let m : max_sanitized_len ≤ length t = omega arith in
      let cut = take max_sanitized_len t ++ 0x2026 ∷ [] in
      let n : max_sanitized_len < length cut = omega (arith, length-cut max_sanitized_len t m) in
      let c : IsClean cut =
        append-IsClean (take max_sanitized_len t) (0x2026 ∷ [])
          (take-IsClean max_sanitized_len t clean) (ellipsis_clean, tt) in
      rw (bounded_long t k clean)
        (bounded_long cut n c ∙ bounded_of_cut max_sanitized_len t (0x2026 ∷ []) m)
  | inr short ↦ let same = bounded_short t (ground arith) clean in rw same same
]

sanitize_bounded-sanitize : (t : Text) → sanitize_bounded (sanitize t) ≡ sanitize_bounded t
unfolding sanitize_bounded
sanitize_bounded-sanitize t = rw (sanitize_self (sanitize t) (sanitize-IsClean t))

-- Whatever text a peer sends, the bounded form is clean, has at most 257 characters, and is left
-- alone when it is bounded again.
pub sanitize_bounded_safe :
    (t : Text)
    → IsClean (sanitize_bounded t)
      × (length (sanitize_bounded t) ≤ max_sanitized_len + 1)
      × (sanitize_bounded (sanitize_bounded t) ≡ sanitize_bounded t)
sanitize_bounded_safe t = (
  bounded-IsClean t,
  bounded_length t,
  rw (← sanitize_bounded-sanitize t) (bounded_again (sanitize t) (sanitize-IsClean t)),
)

-- A text that is already clean and short is shown as it is.
pub sanitize_bounded_self :
    (t : Text) → length t ≤ max_sanitized_len → IsClean t → sanitize_bounded t ≡ t
sanitize_bounded_self = bounded_short
