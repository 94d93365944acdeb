-- ===== src/RepoCheck/Links/Fuel.antt =====
-- tools/repo-check/src/main.rs: the loop over the links of a text ends.
use slice.Base.{
  ℕ, zero, suc, ◌+◌, ◌<◌, ◌≡◌, refl, ap, some, [], ◌∷◌, length, Option-cases, Bool-cases, inl, inr,
  arith, ◌==◌,
}
use slice.Data.Numerals.{split_once}
use slice.Data.Text.{Text, codes, strip_prefix}
use slice.RepoCheck.Links.{after_bracket, targets, target_of}

some_eq : {s t : Text} → some s ≡ some t → length s ≡ length t
some_eq {s} {t} h = let same : s ≡ t = cc in ap length same

strip_prefix-length :
    (p s rest : Text) → strip_prefix p s ≡ some rest → length p + length rest ≡ length s
strip_prefix-length [] s rest h = omega (arith, some_eq h)
strip_prefix-length (a ∷ p) [] rest h = cc
strip_prefix-length (a ∷ p) (b ∷ s) rest h = elim (Bool-cases (a == b)) [
  | inl e ↦ let r = strip_prefix-length p s rest (rw e at h) in omega (arith, r)
  | inr e ↦ let h' = rw e at h in cc (h')
]

pub after_bracket-shorter : (s rest : Text) → after_bracket s ≡ some rest → length rest < length s
unfolding after_bracket
after_bracket-shorter [] rest h = cc
after_bracket-shorter (c ∷ s) rest h = elim (Option-cases (strip_prefix (codes "](") (c ∷ s))) [
  | inl e ↦ let r = after_bracket-shorter s rest (rw (e, after_bracket) at h) in omega (arith, r)
  | inr (found, e) ↦
      let h' = rw (e, after_bracket) at h in
      let r = strip_prefix-length (codes "](") (c ∷ s) found e in omega (arith, r, some_eq h')
]

pub split_once-shorter :
    (at : ℕ) (s before after : Text)
    → split_once at s ≡ some (before, after)
    → length after < length s
unfolding split_once
split_once-shorter at [] before after h = cc
split_once-shorter at (c ∷ s) before after h = elim (Bool-cases (c == at)) [
  | inl e ↦
      let h' = rw (e, split_once) at h in
      let same : s ≡ after = cc (h') in omega (arith, ap length same)
  | inr e ↦ elim (Option-cases (split_once at s)) [
    | inl e' ↦ let h' = rw (e, e', split_once) at h in cc (h')
    | inr ((b, t), e') ↦
        let h' = rw (e, e', split_once) at h in
        let same : t ≡ after = cc (h') in
        let r = split_once-shorter at s b t e' in omega (arith, r, ap length same)
  ]
]

-- One round more than the text has characters is enough: with more rounds the same targets are found.
pub targets_fuel :
    (fuel more : ℕ) (text : Text)
    → length text < fuel
    → length text < more
    → targets fuel text ≡ targets more text
unfolding targets
targets_fuel zero more text a b = absurd (omega arith)
targets_fuel (suc fuel) zero text a b = absurd (omega arith)
targets_fuel (suc fuel) (suc more) text a b = elim (Option-cases (after_bracket text)) [
  | inl e ↦ rw (e, targets) refl
  | inr (rest, e) ↦ elim (Option-cases (split_once 41 rest)) [
    | inl e' ↦ rw (e, e', targets) refl
    | inr ((inside, after), e') ↦
        let x = after_bracket-shorter text rest e in
        let y = split_once-shorter 41 rest inside after e' in
        rw (e, e', targets)
          (ap (λ ts. target_of inside ∷ ts)
            (targets_fuel fuel more after (omega (arith, x, y, a)) (omega (arith, x, y, b))))
  ]
]
