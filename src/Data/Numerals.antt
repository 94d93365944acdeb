-- ===== src/Data/Numerals.antt =====
-- Text as `str` splits, trims and parses it.
use slice.Base.{
  true, false, ℕ, ◌+◌, ◌*◌, ◌-◌, Bool, ◌&&◌, ◌||◌, Option, none, some, List, [], ◌∷◌, leb, ◌==◌,
  map, if◌then◌else◌,
}
use mathlib.Core.List.{reverse}
use slice.Data.Text.{Text, text_eq}

-- `char::is_whitespace`: the code points with the property White_Space.
abbrev pub is_whitespace : ℕ → Bool
is_whitespace c =
    (leb 9 c && leb c 13)
    || (c == 32)
    || (c == 133)
    || (c == 160)
    || (c == 5760)
    || (leb 8192 c && leb c 8202)
    || (c == 8232)
    || (c == 8233)
    || (c == 8239)
    || (c == 8287)
    || (c == 12288)

abbrev pub trim_start : Text → Text
trim_start [] = []
trim_start (c ∷ s) = if is_whitespace c then trim_start s else c ∷ s

unfoldable pub trim : Text → Text
trim s = reverse (trim_start (reverse (trim_start s)))

-- `split_once`: the text before and after the first occurrence of a character.
unfoldable pub split_once : ℕ → Text → Option (Text × Text)
split_once at [] = none
split_once at (c ∷ s) =
    let rest = split_once at s in
    if c == at
    then some ([], s)
    else elim rest [ none ↦ none | some (before, after) ↦ some (c ∷ before, after) ]

-- `split`: never without a part.
abbrev pub prepend_first : ℕ → List Text → List Text
prepend_first c [] = (c ∷ []) ∷ []
prepend_first c (part ∷ parts) = (c ∷ part) ∷ parts

unfoldable pub split : ℕ → Text → List Text
split at [] = [] ∷ []
split at (c ∷ s) = let parts = split at s in if c == at then [] ∷ parts else prepend_first c parts

-- `strip_suffix`: what stands before the suffix, if the text ends in it.
unfoldable pub strip_suffix : Text → Text → Option Text
strip_suffix suffix [] = if text_eq suffix [] then some [] else none
strip_suffix suffix (c ∷ s) =
    let rest = strip_suffix suffix s in
    if text_eq suffix (c ∷ s)
    then some []
    else elim rest [ none ↦ none | some before ↦ some (c ∷ before) ]

abbrev pub is_digit : ℕ → Bool
is_digit c = leb 48 c && leb c 57

-- The digits of a number, up to the largest that the type holds.
unfoldable pub parse_digits : (limit value : ℕ) → Text → Option ℕ
parse_digits limit value [] = some value
parse_digits limit value (c ∷ s) =
    let next = value * 10 + (c - 48) in
    let rest = parse_digits limit next s in if is_digit c && leb next limit then rest else none

-- `parse` into an unsigned type: one `+` may lead, and one digit must follow.
unfoldable pub parse_unsigned : (limit : ℕ) → Text → Option ℕ
parse_unsigned limit [] = none
parse_unsigned limit (c ∷ []) = if c == 43 then none else parse_digits limit 0 (c ∷ [])
parse_unsigned limit (c ∷ d ∷ s) =
    if c == 43 then parse_digits limit 0 (d ∷ s) else parse_digits limit 0 (c ∷ d ∷ s)

-- Does the text begin with the other one, and does it contain it?
abbrev pub starts_with : Text → Text → Bool
starts_with [] s = true
starts_with (a ∷ p) [] = false
starts_with (a ∷ p) (b ∷ s) = (a == b) && starts_with p s

abbrev pub contains_text : Text → Text → Bool
contains_text needle [] = starts_with needle []
contains_text needle (c ∷ s) = starts_with needle (c ∷ s) || contains_text needle s

abbrev pub without_return : Text → Text
without_return s = elim (strip_suffix (13 ∷ []) s) [ none ↦ s | some line ↦ line ]

-- The parts between line feeds: no line after a final line feed, and no carriage return before one.
abbrev lines_of : List Text → List Text
lines_of [] = []
lines_of ([] ∷ []) = []
lines_of ((c ∷ s) ∷ []) = (c ∷ s) ∷ []
lines_of (part ∷ next ∷ parts) = without_return part ∷ lines_of (next ∷ parts)

-- `lines`.
unfoldable pub lines : Text → List Text
lines s = lines_of (split 10 s)

-- `to_ascii_lowercase`.
abbrev pub to_ascii_lowercase : Text → Text
to_ascii_lowercase = map λ c. if leb 65 c && leb c 90 then c + 32 else c
