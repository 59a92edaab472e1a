-- ===== src/Config/Name/Defs.antt =====
-- `validate_name`, `sanitize` and `sanitize_bounded` of src/config/name.rs.
use jj_mesh.Prelude.{
  ℕ, zero, suc, ◌+◌, Bool, not, ◌&&◌, ◌||◌, List, [], ◌∷◌, ◌++◌, map, ltb, leb, ◌==◌, any, is_empty,
  length, if◌then◌else◌, Result, ok, ensure, ◌>>◌,
}
use jj_mesh.Config.Error.{Error, Kind, empty_name, name_too_long, confusable_name}

abbrev pub Text : Type 0
Text = List ℕ

unfoldable pub take {ℓ} : {A : Type ℓ} → ℕ → List A → List A
take zero xs = []
take (suc n) [] = []
take (suc n) (x ∷ xs) = x ∷ take n xs

-- `char::len_utf8`
abbrev pub len_utf8 : ℕ → ℕ
len_utf8 c = if ltb c 0x80 then 1 else if ltb c 0x800 then 2 else if ltb c 0x10000 then 3 else 4

-- `str::len`
abbrev pub len : Text → ℕ
len [] = 0
len (c ∷ cs) = len_utf8 c + len cs

abbrev pub max_name_len : ℕ
max_name_len = 64

abbrev pub max_sanitized_len : ℕ
max_sanitized_len = 256

-- `char::is_control`: the category `Cc`
abbrev pub is_control : ℕ → Bool
is_control c = ltb c 0x20 || (leb 0x7f c && leb c 0x9f)

abbrev pub in_range : ℕ → ℕ → ℕ → Bool
in_range lo hi c = leb lo c && leb c hi

unfoldable pub is_confusable : ℕ → Bool
is_confusable c =
    is_control c
    || (in_range 0x200b 0x200f c
        || (in_range 0x202a 0x202e c || (in_range 0x2066 0x2069 c || c == 0xfeff)))

unfoldable pub validate_name : Kind → Text → Result Error (Unit {0})
validate_name kind name = do
  ensure (not (is_empty name)) (empty_name kind)
  ensure (leb (len name) max_name_len) (name_too_long kind)
  ensure (not (any is_confusable name)) (confusable_name kind)
  ok tt

-- A confusable character becomes `?`.
unfoldable pub mask : ℕ → ℕ
mask c = if is_confusable c then b'?' else c

unfoldable pub sanitize : Text → Text
sanitize text = map mask text

-- `char_indices().nth(n)` finds a character exactly when there are more than `n`; the cut then
-- keeps the first `n` and appends `…`.
unfoldable pub sanitize_bounded : Text → Text
unfolding sanitize
sanitize_bounded text =
    let clean = sanitize text in
    if ltb max_sanitized_len (length clean)
    then take max_sanitized_len clean ++ 0x2026 ∷ []
    else clean
