-- ===== src/RepoCheck/Links/Reading.antt =====
-- tools/repo-check/src/main.rs: how a text is read into the targets of its links.
use mathlib.Core.Path.{ap₂}
use slice.Base.{
  ℕ, zero, suc, ◌≡◌, ◌<◌, refl, sym, ap, ◌∙◌, false, ◌||◌, none, some, List, [], ◌∷◌, ◌++◌, All,
  length, ◌==◌, ==_iff, Option-cases, Bool-cases, inl, inr, arith,
}
use slice.Data.Numerals.{split_once, contains_text, starts_with}
use slice.Data.Text.{Text, codes, strip_prefix}
use slice.RepoCheck.Links.Fuel.{after_bracket-shorter, split_once-shorter}
use slice.RepoCheck.Links.{after_bracket, targets, target_of}

-- A text without `](`; one in which nothing closes what the first `](` opens; and one that goes on
-- behind the first `)` after the first `](`, between which the target stands.
pub data IsReading : Text → List Text → Type 0 where
  no_link : {text : Text} → contains_text (codes "](") text ≡ false → IsReading text []
  not_closed :
      (before rest : Text)
      → contains_text (codes "](") (before ++ codes "]") ≡ false
      → All (λ c. (c == 41) ≡ false) rest
      → IsReading (before ++ codes "](" ++ rest) []
  link :
      (before inside after : Text) {found : List Text}
      → contains_text (codes "](") (before ++ codes "]") ≡ false
      → All (λ c. (c == 41) ≡ false) inside
      → IsReading after found
      → IsReading (before ++ codes "](" ++ (inside ++ 41 ∷ after)) (target_of inside ∷ found)

strip_prefix-starts_with : (p s : Text) → strip_prefix p s ≡ none → starts_with p s ≡ false
strip_prefix-starts_with [] s h = cc
strip_prefix-starts_with (a ∷ p) [] h = refl
strip_prefix-starts_with (a ∷ p) (b ∷ s) h = elim (Bool-cases (a == b)) [
  | inl e ↦ rw e (strip_prefix-starts_with p s (rw e at h))
  | inr e ↦ rw e refl
]

strip_prefix-append : (p s rest : Text) → strip_prefix p s ≡ some rest → s ≡ p ++ rest
strip_prefix-append [] s rest h = cc
strip_prefix-append (a ∷ p) [] rest h = cc
strip_prefix-append (a ∷ p) (b ∷ s) rest h = elim (Bool-cases (a == b)) [
  | inl e ↦
      let same : a ≡ b = (==_iff a b).0 e in
      let r = strip_prefix-append p s rest (rw e at h) in rw (same, r) refl
  | inr e ↦ let h' = rw e at h in cc (h')
]

after_bracket-none : (s : Text) → after_bracket s ≡ none → contains_text (codes "](") s ≡ false
unfolding after_bracket
after_bracket-none [] h = refl
after_bracket-none (c ∷ s) h = elim (Option-cases (strip_prefix (codes "](") (c ∷ s))) [
  | inl e ↦
      let here = strip_prefix-starts_with (codes "](") (c ∷ s) e in
      let later = after_bracket-none s (rw (e, after_bracket) at h) in
      ap₂ (λ x y. x || y) here later
  | inr (found, e) ↦ let h' = rw (e, after_bracket) at h in cc (h')
]

starts_bracket :
    (c : ℕ) (before rest : Text)
    → starts_with (codes "](") (c ∷ before ++ codes "](" ++ rest) ≡ false
    → starts_with (codes "](") (c ∷ before ++ codes "]") ≡ false
starts_bracket c [] rest h = ground arith
starts_bracket c (d ∷ before) rest h = h

after_bracket-some :
    (s rest : Text)
    → after_bracket s ≡ some rest
    → (before : Text) × (s ≡ before ++ codes "](" ++ rest)
      × (contains_text (codes "](") (before ++ codes "]") ≡ false)
unfolding after_bracket
after_bracket-some [] rest h = cc
after_bracket-some (c ∷ s) rest h = elim (Option-cases (strip_prefix (codes "](") (c ∷ s))) [
  | inl e ↦
      let here = strip_prefix-starts_with (codes "](") (c ∷ s) e in
      let (before, whole, first) = after_bracket-some s rest (rw (e, after_bracket) at h) in
      (
        c ∷ before,
        ap (λ t. c ∷ t) whole,
        ap₂ (λ x y. x || y)
            (starts_bracket c before rest
              (ap (λ t. starts_with (codes "](") (c ∷ t)) (sym whole) ∙ here))
            first,
      )
  | inr (found, e) ↦
      let h' = rw (e, after_bracket) at h in
      let same : found ≡ rest = cc in
      ([], strip_prefix-append (codes "](") (c ∷ s) found e ∙ ap (λ t. codes "](" ++ t) same, refl)
]

split_once-none : (at : ℕ) (s : Text) → split_once at s ≡ none → All (λ c. (c == at) ≡ false) s
unfolding split_once
split_once-none at [] h = tt
split_once-none at (c ∷ s) h = elim (Bool-cases (c == at)) [
  | inl e ↦ let h' = rw (e, split_once) at h in cc (h')
  | inr e ↦ elim (Option-cases (split_once at s)) [
    | inl e' ↦ (e, split_once-none at s e')
    | inr ((b, t), e') ↦ let h' = rw (e, e', split_once) at h in cc (h')
  ]
]

split_once-some :
    (at : ℕ) (s before after : Text)
    → split_once at s ≡ some (before, after)
    → (s ≡ before ++ at ∷ after) × All (λ c. (c == at) ≡ false) before
unfolding split_once
split_once-some at [] before after h = cc
split_once-some at (c ∷ s) before after h = elim (Bool-cases (c == at)) [
  | inl e ↦
      let h' = rw (e, split_once) at h in
      let b : [] ≡ before = cc (h') in
      let a : s ≡ after = cc (h') in
      let eq : c ≡ at = (==_iff c at).0 e in rw (eq, a, sym b) (refl, tt)
  | inr e ↦ elim (Option-cases (split_once at s)) [
    | inl e' ↦ let h' = rw (e, e', split_once) at h in cc (h')
    | inr ((b, t), e') ↦
        let h' = rw (e, e', split_once) at h in
        let same_b : c ∷ b ≡ before = cc (h') in
        let same_t : t ≡ after = cc (h') in
        let (whole, free) = split_once-some at s b t e' in
        rw (sym same_b, sym same_t) (ap (λ x. c ∷ x) whole, (e, free))
  ]
]

-- The targets are those that the text reads as.
pub targets-IsReading :
    (fuel : ℕ) (text : Text) → length text < fuel → IsReading text (targets fuel text)
unfolding targets
targets-IsReading zero text h = absurd (omega arith)
targets-IsReading (suc fuel) text h = elim (Option-cases (after_bracket text)) [
  | inl e ↦ rw (e, targets) (no_link (after_bracket-none text e))
  | inr (rest, e) ↦
      let (before, whole, first) = after_bracket-some text rest e in
      let short = after_bracket-shorter text rest e in
      elim (Option-cases (split_once 41 rest)) [
        | inl e' ↦
            rw (e, e', targets, whole) (not_closed before rest first (split_once-none 41 rest e'))
        | inr ((inside, after), e') ↦
            let (parts, free) = split_once-some 41 rest inside after e' in
            let shorter = split_once-shorter 41 rest inside after e' in
            let more = targets-IsReading fuel after (omega (arith, h, short, shorter)) in
            rw (e, e', targets, whole, parts) (link before inside after first free more)
      ]
]
