-- ===== src/RepoCheck/Pins/Line.antt =====
-- tools/repo-check/src/main.rs: a line of a workflow with a pinned reference.
use slice.Base.{
  ℕ, ◌≤◌, ◌≡◌, ◌↔◌, ◌⊎◌, refl, sym, subst, true, ◌&&◌, some, [], ◌∷◌, All, length, leb, ==_iff,
  &&-eq-true, Option-cases, Bool-cases, inl, inr, arith,
}
use slice.Data.Numerals.{split_once}
use slice.Data.Text.{Text}
use slice.Ebpf.Host.{first_word}
use slice.RepoCheck.Pins.{all_hex, is_hex_digit, is_pin, is_pinned, trim_quotes}

-- A hexadecimal digit of ASCII.
abbrev IsHex : ℕ → Type 0
IsHex c = ((48 ≤ c) × (c ≤ 57)) ⊎ (((65 ≤ c) × (c ≤ 70)) ⊎ ((97 ≤ c) × (c ≤ 102)))

-- Behind the first `@` stands a word, which without its quotes is forty hexadecimal digits.
pub record IsPinned (line : Text) : Type 0 where
  pub before : Text
  pub after : Text
  pub at : split_once 64 line ≡ some (before, after)
  pub word : Text
  pub reference : first_word after ≡ some word
  pub forty : length (trim_quotes word) ≡ 40
  pub hexadecimal : All IsHex (trim_quotes word)

is_hex_digit-IsHex : (c : ℕ) → is_hex_digit c ≡ true → IsHex c
is_hex_digit-IsHex c h = elim (Bool-cases (leb 48 c && leb c 57)) [
  | inl e ↦ inl (ground (arith, e), ground (arith, e))
  | inr e ↦ elim (Bool-cases (leb 65 c && leb c 70)) [
    | inl e' ↦ inr (inl (ground (arith, e'), ground (arith, e')))
    | inr e' ↦ inr (inr (ground (arith, e, e', h), ground (arith, e, e', h)))
  ]
]

IsHex-is_hex_digit : (c : ℕ) → IsHex c → is_hex_digit c ≡ true
IsHex-is_hex_digit c (inl (a, b)) = ground (arith, a, b)
IsHex-is_hex_digit c (inr (inl (a, b))) = ground (arith, a, b)
IsHex-is_hex_digit c (inr (inr (a, b))) = ground (arith, a, b)

all_hex-IsHex : (s : Text) → (all_hex s ≡ true) ↔ All IsHex s
all_hex-IsHex [] = (λ h. tt, λ h. refl)
all_hex-IsHex (c ∷ s) = (
  λ h. let (a, b) = &&-eq-true _ _ h in (is_hex_digit-IsHex c a, (all_hex-IsHex s).0 b),
  λ h. rw (IsHex-is_hex_digit c h.0) ((all_hex-IsHex s).1 h.1),
)

pub is_pinned-IsPinned : (line : Text) → (is_pinned line ≡ true) ↔ IsPinned line
unfolding is_pinned
is_pinned-IsPinned line = elim (Option-cases (split_once 64 line)) [
  | inl e ↦ (λ h. (let h' = rw (e, is_pinned) at h in cc (h')), λ p. absurd (let at = p.at in cc))
  | inr ((before, after), e) ↦ elim (Option-cases (first_word after)) [
    | inl e' ↦ (
      λ h. (let h' = rw (e, is_pinned, e') at h in cc (h')),
      λ p. absurd (let at = p.at in let r = p.reference in let same : after ≡ p.after = cc in cc),
    )
    | inr (word, e') ↦ (
      λ h.
          let h' : is_pin (trim_quotes word) ≡ true = rw (e, is_pinned, e') at h in
          let (a, b) = &&-eq-true _ _ h' in
          record {
            before = before;
            after = after;
            at = e;
            word = word;
            reference = e';
            forty = (==_iff _ 40).0 a;
            hexadecimal = (all_hex-IsHex (trim_quotes word)).0 b;
          },
      λ p.
          let at = p.at in
          let r = p.reference in
          let same : after ≡ p.after = cc in
          let w : word ≡ p.word = cc in
          let pinned : is_pin (trim_quotes p.word) ≡ true =
            rw p.forty ((all_hex-IsHex (trim_quotes p.word)).1 p.hexadecimal) in
          rw (e, is_pinned, e') (subst (λ x. is_pin (trim_quotes x) ≡ true) (sym w) pinned),
    )
  ]
]
