-- ===== src/Data/Text.antt =====
-- A `String` or `str` as the list of its code points. The byte order of UTF-8, by which Rust
-- compares strings, is the lexicographic order of code points.
use Prim.Native.Char.{code}
use Prim.Native.String.{String}
use Prim.Native.Nat.{compare, Ordering}
use mathlib.Core.Path.{ap₂}
use mathlib.Core.Bool.{false≢true}
use slice.Base.{
  ℕ, ◌≡◌, refl, List, [], ◌∷◌, Bool, true, false, ◌&&◌, ◌==◌, ==_iff, arith, &&-eq-true, Bool-cases,
  ◌⊎◌, inl, inr, ◌≢◌, sym, ◌∙◌, subst, ap, Option, none, some, if◌then◌else◌,
}

abbrev pub Text : Type 0
Text = List ℕ

-- The code points of a literal.
abbrev pub codes : String → Text
codes String.[] = []
codes (String.◌∷◌ c s) = code c ∷ codes s

abbrev pub text_eq : Text → Text → Bool
text_eq [] [] = true
text_eq (a ∷ s) (b ∷ t) = a == b && text_eq s t
text_eq _ _ = false

pub text_eq_self : (s : Text) → text_eq s s ≡ true
text_eq_self [] = refl
text_eq_self (a ∷ s) = ground (arith, text_eq_self s)

pub text_eq→≡ : (s t : Text) → text_eq s t ≡ true → s ≡ t
text_eq→≡ [] [] h = refl
text_eq→≡ [] (b ∷ t) h = cc
text_eq→≡ (a ∷ s) [] h = cc
text_eq→≡ (a ∷ s) (b ∷ t) h =
    let parts = &&-eq-true (a == b) (text_eq s t) h in
    ap₂ ◌∷◌ ((==_iff a b).0 parts.0) (text_eq→≡ s t parts.1)

-- `Ord for str`.
abbrev pub compare_text : Text → Text → Ordering
compare_text [] [] = Ordering.eq
compare_text [] (b ∷ t) = Ordering.lt
compare_text (a ∷ s) [] = Ordering.gt
compare_text (a ∷ s) (b ∷ t) = elim (compare a b) [
  | Ordering.lt ↦ Ordering.lt
  | Ordering.eq ↦ compare_text s t
  | Ordering.gt ↦ Ordering.gt
]

pub compare_text_self : (s : Text) → compare_text s s ≡ Ordering.eq
compare_text_self [] = refl
compare_text_self (a ∷ s) = ground (arith, compare_text_self s)

pub compare_text→≡ : (s t : Text) → compare_text s t ≡ Ordering.eq → s ≡ t
compare_text→≡ [] [] h = refl
compare_text→≡ [] (b ∷ t) h = cc
compare_text→≡ (a ∷ s) [] h = cc
compare_text→≡ (a ∷ s) (b ∷ t) h = ground (arith, compare_text→≡ s t)

pub compare_text-lt_trans :
    (s t u : Text)
    → compare_text s t ≡ Ordering.lt
    → compare_text t u ≡ Ordering.lt
    → compare_text s u ≡ Ordering.lt
compare_text-lt_trans [] [] u h k = cc
compare_text-lt_trans [] (b ∷ t) [] h k = cc
compare_text-lt_trans [] (b ∷ t) (c ∷ u) h k = refl
compare_text-lt_trans (a ∷ s) [] u h k = cc
compare_text-lt_trans (a ∷ s) (b ∷ t) [] h k = cc
compare_text-lt_trans (a ∷ s) (b ∷ t) (c ∷ u) h k = ground (arith, compare_text-lt_trans s t u)

pub compare_text-gt_lt :
    (s t : Text) → compare_text s t ≡ Ordering.gt → compare_text t s ≡ Ordering.lt
compare_text-gt_lt [] [] h = cc
compare_text-gt_lt [] (b ∷ t) h = cc
compare_text-gt_lt (a ∷ s) [] h = refl
compare_text-gt_lt (a ∷ s) (b ∷ t) h = ground (arith, compare_text-gt_lt s t)

pub compare_text-ne : (s t : Text) → text_eq s t ≡ false → compare_text s t ≢ Ordering.eq
compare_text-ne s t h e =
    false≢true (sym h ∙ subst (λ u. text_eq s u ≡ true) (compare_text→≡ s t e) (text_eq_self s))

pub compare_text-eq_right :
    (s t u : Text) → compare_text t u ≡ Ordering.eq → compare_text s t ≡ compare_text s u
compare_text-eq_right s t u e = ap (compare_text s) (compare_text→≡ t u e)

pub text_eq-false : (s t : Text) → compare_text s t ≢ Ordering.eq → text_eq t s ≡ false
text_eq-false s t h = elim (Bool-cases (text_eq t s)) [
  | inl e ↦ absurd (h (ap (compare_text s) (text_eq→≡ t s e) ∙ compare_text_self s))
  | inr e ↦ e
]

pub Ordering-cases : (o : Ordering) → (o ≡ Ordering.lt) ⊎ ((o ≡ Ordering.eq) ⊎ (o ≡ Ordering.gt))
Ordering-cases Ordering.lt = inl refl
Ordering-cases Ordering.eq = inr (inl refl)
Ordering-cases Ordering.gt = inr (inr refl)

-- `strip_prefix`.
abbrev pub strip_prefix : Text → Text → Option Text
strip_prefix [] t = some t
strip_prefix (a ∷ s) [] = none
strip_prefix (a ∷ s) (b ∷ t) = if a == b then strip_prefix s t else none
