-- ===== src/Data/Decimal.antt =====
-- `Display` of an unsigned number, and that `parse` reads it back.
use mathlib.Core.List.{reverse, reverse_aux}
use slice.Base.{
  All-reverse, All-map, ℕ, zero, suc, ◌+◌, ◌*◌, ◌-◌, ◌/◌, ◌%◌, ◌<◌, ◌≤◌, ◌≡◌, refl, ◌∙◌, sym, ap,
  subst, true, false, some, [], ◌∷◌, All, leb, ◌==◌, ◌&&◌, if◌then◌else◌, arith, Bool-cases, ==_iff,
  inl, inr,
}
use slice.Data.Numerals.{is_digit, is_whitespace, parse_digits, parse_unsigned, trim, trim_start}
use slice.Data.Text.{Text}
use slice.Data.Words.{u64_max}

-- The digits of a number before the rest; none for 0.
unfoldable digits_from : (count n : ℕ) → Text → Text
digits_from zero n rest = rest
digits_from (suc count) n rest =
    let more = digits_from count (n / 10) ((48 + n % 10) ∷ rest) in if n == 0 then rest else more

-- A `u64` has at most 20 digits.
unfoldable pub decimal : ℕ → Text
unfolding digits_from
decimal n = if n == 0 then 48 ∷ [] else digits_from 20 n []

abbrev pub IsDigits : Text → Type 0
IsDigits = All λ c. is_digit c ≡ true

abbrev limit_of : ℕ → ℕ
limit_of zero = 1
limit_of (suc count) = 10 * limit_of count

digits_from-IsDigits :
    (count n : ℕ) (rest : Text) → IsDigits rest → IsDigits (digits_from count n rest)
unfolding digits_from
digits_from-IsDigits zero n rest h = h
digits_from-IsDigits (suc count) n rest h = elim (Bool-cases (n == 0)) [
  | inl e ↦ rw e h
  | inr e ↦ rw e (digits_from-IsDigits count (n / 10) ((48 + n % 10) ∷ rest) (ground arith, h))
]

parse_digits-digits_from :
    (limit count n : ℕ) (rest : Text)
    → n < limit_of count
    → n ≤ limit
    → parse_digits limit 0 (digits_from count n rest) ≡ parse_digits limit n rest
unfolding digits_from parse_digits
parse_digits-digits_from limit zero n rest below fits =
    let none_left : 0 ≡ n = omega arith in ap (λ v. parse_digits limit v rest) none_left
parse_digits-digits_from limit (suc count) n rest below fits = elim (Bool-cases (n == 0)) [
  | inl e ↦
      let nothing : 0 ≡ n = sym ((==_iff n 0).0 e) in
      rw e (ap (λ v. parse_digits limit v rest) nothing)
  | inr e ↦
      let value : n / 10 * 10 + (48 + n % 10 - 48) ≡ n = omega arith in
      let digit : (is_digit (48 + n % 10) && leb n limit) ≡ true = ground arith in
      rw e (
        parse_digits-digits_from limit count (n / 10) ((48 + n % 10) ∷ rest) (omega arith)
          (omega arith)
        ∙ rw (value, digit) refl)
]

-- A text of digits, at least one, is read by its digits alone.
parse_unsigned-IsDigits :
    (limit c : ℕ) (s : Text)
    → IsDigits (c ∷ s)
    → parse_unsigned limit (c ∷ s) ≡ parse_digits limit 0 (c ∷ s)
unfolding parse_unsigned
parse_unsigned-IsDigits limit c [] h =
    let no_plus : (c == 43) ≡ false = ground arith in rw no_plus refl
parse_unsigned-IsDigits limit c (d ∷ s) h =
    let no_plus : (c == 43) ≡ false = ground (arith, h.0) in rw no_plus refl

below_twenty : (n : ℕ) → n ≤ u64_max → n < limit_of 20
below_twenty n h = omega arith

-- The digits of a number other than 0 begin with a digit.
digits_from-cons :
    (count n c : ℕ) (rest : Text) → (d : ℕ) × (s : Text) × (digits_from count n (c ∷ rest) ≡ d ∷ s)
unfolding digits_from
digits_from-cons zero n c rest = (c, rest, refl)
digits_from-cons (suc count) n c rest = elim (Bool-cases (n == 0)) [
  | inl e ↦ (c, rest, rw e refl)
  | inr e ↦
      let (d, s, same) = digits_from-cons count (n / 10) (48 + n % 10) (c ∷ rest) in
      (d, s, rw e same)
]

-- The text of a number has a first digit.
pub decimal-cons : (n : ℕ) → (c : ℕ) × (s : Text) × (decimal n ≡ c ∷ s)
unfolding decimal digits_from
decimal-cons n = elim (Bool-cases (n == 0)) [
  | inl e ↦ (48, [], rw e refl)
  | inr e ↦ let (c, s, same) = digits_from-cons 19 (n / 10) (48 + n % 10) [] in (c, s, rw e same)
]

pub decimal-IsDigits : (n : ℕ) → IsDigits (decimal n)
unfolding decimal digits_from
decimal-IsDigits n = elim (Bool-cases (n == 0)) [
  | inl e ↦ rw e (refl, tt)
  | inr e ↦ rw e (digits_from-IsDigits 19 (n / 10) ((48 + n % 10) ∷ []) (ground arith, tt))
]

decimal-zero : (n : ℕ) → (n == 0) ≡ true → decimal n ≡ 48 ∷ []
unfolding decimal
decimal-zero n e = rw e refl

decimal-other : (n : ℕ) → (n == 0) ≡ false → decimal n ≡ digits_from 20 n []
unfolding decimal
decimal-other n e = rw e refl

parse_digits-decimal :
    (limit n : ℕ) → n ≤ limit → n ≤ u64_max → parse_digits limit 0 (decimal n) ≡ some n
unfolding parse_digits
parse_digits-decimal limit n fits small = elim (Bool-cases (n == 0)) [
  | inl e ↦
      let nothing : 0 ≡ n = sym ((==_iff n 0).0 e) in
      rw (decimal-zero n e) (ground (arith, nothing))
  | inr e ↦
      rw (decimal-other n e) (parse_digits-digits_from limit 20 n [] (below_twenty n small) fits)
]

-- A number that fits its type is read back from its text.
pub parse_unsigned-decimal :
    (limit n : ℕ) → n ≤ limit → n ≤ u64_max → parse_unsigned limit (decimal n) ≡ some n
parse_unsigned-decimal limit n fits small =
    let (c, s, same) = decimal-cons n in
    ap (parse_unsigned limit) same
    ∙ parse_unsigned-IsDigits limit c s (subst IsDigits same (decimal-IsDigits n))
    ∙ ap (parse_digits limit 0) (sym same)
    ∙ parse_digits-decimal limit n fits small

trim_start-keeps : (s : Text) → All (λ c. is_whitespace c ≡ false) s → trim_start s ≡ s
trim_start-keeps [] h = refl
trim_start-keeps (c ∷ s) h = rw h.0 refl

reverse_aux-reverse_aux : (xs ys : Text) → reverse_aux (reverse_aux xs ys) [] ≡ reverse_aux ys xs
reverse_aux-reverse_aux [] ys = refl
reverse_aux-reverse_aux (x ∷ xs) ys = reverse_aux-reverse_aux xs (x ∷ ys)

digit_no_space : (c : ℕ) → is_digit c ≡ true → is_whitespace c ≡ false
digit_no_space c h = ground arith

-- Digits have no white space around them.
pub trim-IsDigits : (s : Text) → IsDigits s → trim s ≡ s
unfolding trim
trim-IsDigits s h =
    let solid = All-map _ _ digit_no_space s h in
    ap (λ t. reverse (trim_start (reverse t))) (trim_start-keeps s solid)
    ∙ ap reverse (trim_start-keeps (reverse s) (All-reverse _ s [] solid tt))
    ∙ reverse_aux-reverse_aux s []
