-- ===== src/SqlPolicy/Text.antt =====
-- The functions of Go's `strings` that the policy calls, over the bytes of a UTF-8 text.
use mathlib.Core.List.{reverse}
use web_db.Prelude.{ℕ, zero, suc, Bool, ◌&&◌, ◌||◌, [], ◌∷◌, Bytes, leb, ◌==◌, if◌then◌else◌}

abbrev is_ascii_space : ℕ → Bool
is_ascii_space c = c == b' ' || (leb 9 c && leb c 13)

-- U+2000 to U+200A, U+2028, U+2029, U+202F (after 0xE2 0x80)
abbrev is_punctuation_space : ℕ → Bool
is_punctuation_space c = (leb 0x80 c && leb c 0x8a) || c == 0xa8 || c == 0xa9 || c == 0xaf

-- Three bytes that make up a character of `unicode.IsSpace`.
abbrev is_wide_space : ℕ → ℕ → ℕ → Bool
is_wide_space a b c =
    (a == 0xe1 && b == 0x9a && c == 0x80)
    || (a == 0xe2 && b == 0x80 && is_punctuation_space c)
    || (a == 0xe2 && b == 0x81 && c == 0x9f)
    || (a == 0xe3 && b == 0x80 && c == 0x80)

-- U+0085 and U+00A0
abbrev is_latin_space : ℕ → ℕ → Bool
is_latin_space a b = a == 0xc2 && (b == 0x85 || b == 0xa0)

-- How many bytes of white space stand first: 0 if none.
space_width : Bytes → ℕ
space_width [] = 0
space_width (a ∷ []) = if is_ascii_space a then 1 else 0
space_width (a ∷ b ∷ []) = if is_ascii_space a then 1 else if is_latin_space a b then 2 else 0
space_width (a ∷ b ∷ c ∷ _) =
    if is_ascii_space a
    then 1
    else if is_latin_space a b
    then 2
    else if is_wide_space a b c
    then 3
    else 0

-- The same at the end of a text that is given backwards.
space_width_back : Bytes → ℕ
space_width_back [] = 0
space_width_back (a ∷ []) = if is_ascii_space a then 1 else 0
space_width_back (b ∷ a ∷ []) = if is_ascii_space b then 1 else if is_latin_space a b then 2 else 0
space_width_back (c ∷ b ∷ a ∷ _) =
    if is_ascii_space c
    then 1
    else if is_latin_space b c
    then 2
    else if is_wide_space a b c
    then 3
    else 0

-- Drops white space by widths; the number is how many bytes of a character are still to go.
trim_by : (Bytes → ℕ) → ℕ → Bytes → Bytes
trim_by width skip [] = []
trim_by width (suc skip) (c ∷ cs) = trim_by width skip cs
trim_by width zero (c ∷ cs) = elim (width (c ∷ cs)) [
  | zero ↦ c ∷ cs
  | suc skip ↦ trim_by width skip cs
]

-- `strings.TrimSpace`
unfoldable pub trim_space : Bytes → Bytes
unfolding trim_by space_width space_width_back
trim_space s = reverse (trim_by space_width_back 0 (reverse (trim_by space_width 0 s)))

-- `strings.ReplaceAll(s, "\r\n", "\n")`
unfoldable pub replace_crlf : Bytes → Bytes
replace_crlf [] = []
replace_crlf (c ∷ []) = c ∷ []
replace_crlf (c ∷ d ∷ rest) =
    let pair = b'\n' ∷ replace_crlf rest in
    let one = c ∷ replace_crlf (d ∷ rest) in if c == b'\r' && d == b'\n' then pair else one

-- `strings.ReplaceAll(s, "\r", "\n")`
unfoldable pub replace_cr : Bytes → Bytes
replace_cr [] = []
replace_cr (c ∷ rest) = (if c == b'\r' then b'\n' else c) ∷ replace_cr rest
