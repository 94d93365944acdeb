-- ===== src/Core/Validate/Ancestry.antt =====
-- The loop over the ancestors of an invocation: it ends within its fuel, and it finds no repetition
-- exactly when the chain of parents ends.
use slice.Base.{
  ℕ, zero, suc, ◌+◌, ◌≤◌, ◌<◌, ◌≡◌, refl, ap, sym, subst, ◌∙◌, Bool, true, false, Option, none,
  some, List, [], ◌∷◌, length, contains, ◌==◌, ==_iff, if◌then◌else◌, All, arith, Bool-cases,
  Option-cases, inl, inr,
}
use slice.Core.Validate.{Parents, parent_of, ancestry_repeats, ancestry_fuel}

-- After `d` steps from `id` to its parent the chain has ended.
abbrev pub Chain : Parents → ℕ → ℕ → Type 0
Chain ps zero id = parent_of ps id ≡ none
Chain ps (suc d) id = (p : ℕ) × (parent_of ps id ≡ some p) × Chain ps d p

abbrev pub IsRooted : Parents → ℕ → Type 0
IsRooted ps id = (d : ℕ) × Chain ps d id

some_eq : {a b : ℕ} → some a ≡ some b → a ≡ b
some_eq h = cc

Chain-unique : (ps : Parents) (d e id : ℕ) → Chain ps d id → Chain ps e id → d ≡ e
Chain-unique ps zero zero id c k = refl
Chain-unique ps zero (suc e) id c k = cc
Chain-unique ps (suc d) zero id c k = cc
Chain-unique ps (suc d) (suc e) id (p, h, c) (q, g, k) =
    let same : q ≡ p = some_eq (sym g ∙ h) in
    ap suc (Chain-unique ps d e p c (subst (Chain ps e) same k))

-- How many entries of the map have not been visited.
unseen : Parents → List ℕ → ℕ
unseen [] seen = 0
unseen ((i, p) ∷ ps) seen = (if contains i seen then 0 else 1) + unseen ps seen

unseen-le-length : (ps : Parents) (seen : List ℕ) → unseen ps seen ≤ length ps
unfolding unseen
unseen-le-length [] seen = omega arith
unseen-le-length ((i, p) ∷ ps) seen = ground (arith, unseen-le-length ps seen)

unseen-cons-le : (ps : Parents) (id : ℕ) (seen : List ℕ) → unseen ps (id ∷ seen) ≤ unseen ps seen
unfolding unseen
unseen-cons-le [] id seen = omega arith
unseen-cons-le ((i, p) ∷ ps) id seen = ground (arith, unseen-cons-le ps id seen)

unseen-cons-lt :
    (ps : Parents) (id parent : ℕ) (seen : List ℕ)
    → contains id seen ≡ false
    → parent_of ps id ≡ some parent
    → unseen ps (id ∷ seen) < unseen ps seen
unfolding unseen
unseen-cons-lt [] id parent seen new h = cc
unseen-cons-lt ((i, p) ∷ ps) id parent seen new h =
    ground (arith, unseen-cons-lt ps id parent seen new, unseen-cons-le ps id seen)

ancestry_repeats-none :
    (fuel : ℕ) (ps : Parents) (seen : List ℕ)
    → 1 ≤ fuel
    → ancestry_repeats fuel ps seen none ≡ some false
unfolding ancestry_repeats
ancestry_repeats-none zero ps seen h = absurd (omega arith)
ancestry_repeats-none (suc fuel) ps seen h = refl

-- With a round for each entry that is left and two more, the loop ends.
ancestry_repeats_total :
    (fuel : ℕ) (ps : Parents) (seen : List ℕ) (current : Option ℕ)
    → suc (suc (unseen ps seen)) ≤ fuel
    → (b : Bool) × (ancestry_repeats fuel ps seen current ≡ some b)
unfolding ancestry_repeats
ancestry_repeats_total zero ps seen current h = absurd (omega arith)
ancestry_repeats_total (suc fuel) ps seen none h = (false, refl)
ancestry_repeats_total (suc fuel) ps seen (some id) h = elim (Bool-cases (contains id seen)) [
  | inl old ↦ (true, rw old refl)
  | inr new ↦ rw new (elim (Option-cases (parent_of ps id)) [
    | inl last ↦ rw last (false, ancestry_repeats-none fuel ps (id ∷ seen) (omega arith))
    | inr (p, up) ↦ rw up (
        let less = unseen-cons-lt ps id p seen new up in
        ancestry_repeats_total fuel ps (id ∷ seen) (some p) (omega arith))
  ])
]

-- The fuel that `validate` gives is enough, whatever the profile.
pub ancestry_fuel_suffices :
    (ps : Parents) (id : ℕ)
    → (b : Bool) × (ancestry_repeats (ancestry_fuel ps) ps [] (some id) ≡ some b)
ancestry_fuel_suffices ps id =
    let most = unseen-le-length ps [] in
    ancestry_repeats_total (ancestry_fuel ps) ps [] (some id) (omega arith)

-- No repetition: the chain ends.
pub ancestry_repeats-IsRooted :
    (fuel : ℕ) (ps : Parents) (seen : List ℕ) (id : ℕ)
    → ancestry_repeats fuel ps seen (some id) ≡ some false
    → IsRooted ps id
unfolding ancestry_repeats
ancestry_repeats-IsRooted zero ps seen id h = cc
ancestry_repeats-IsRooted (suc fuel) ps seen id h = elim (Option-cases (parent_of ps id)) [
  | inl last ↦ (0, last)
  | inr (p, up) ↦
      let above =
        ancestry_repeats-IsRooted fuel ps (id ∷ seen) p
          (ground (arith, up, ap (ancestry_repeats fuel ps (id ∷ seen)) up)) in
      (suc above.0, (p, up, above.1))
]

-- Every id that has been seen has a longer chain than `d`.
abbrev Above : Parents → ℕ → List ℕ → Type 0
Above ps d seen = All (λ s. (e : ℕ) × Chain ps e s × (d < e)) seen

Above-contains :
    (ps : Parents) (d : ℕ) (seen : List ℕ) (id : ℕ)
    → Above ps d seen
    → Chain ps d id
    → contains id seen ≡ false
Above-contains ps d [] id a c = refl
Above-contains ps d (s ∷ seen) id ((e, k, less), a) c = elim (Bool-cases (s == id)) [
  | inl same ↦ absurd (
      let eq = Chain-unique ps e d id (subst (Chain ps e) ((==_iff s id).0 same) k) c in
      omega arith)
  | inr other ↦ rw other (Above-contains ps d seen id a c)
]

Above-weaken : (ps : Parents) (d : ℕ) (seen : List ℕ) → Above ps (suc d) seen → Above ps d seen
Above-weaken ps d [] a = tt
Above-weaken ps d (s ∷ seen) ((e, k, less), a) = ((e, k, omega arith), Above-weaken ps d seen a)

-- A chain that ends does not repeat.
IsRooted-ancestry_repeats :
    (fuel : ℕ) (ps : Parents) (seen : List ℕ) (d id : ℕ) {b : Bool}
    → Chain ps d id
    → Above ps d seen
    → ancestry_repeats fuel ps seen (some id) ≡ some b
    → b ≡ false
unfolding ancestry_repeats
IsRooted-ancestry_repeats zero ps seen d id c a h = cc
IsRooted-ancestry_repeats (suc zero) ps seen d id c a h =
    ground (arith, Above-contains ps d seen id a c)
IsRooted-ancestry_repeats (suc (suc fuel)) ps seen zero id c a h =
    ground
      (arith, Above-contains ps zero seen id a c, ap (ancestry_repeats (suc fuel) ps (id ∷ seen)) c)
IsRooted-ancestry_repeats (suc (suc fuel)) ps seen (suc d) id (p, up, c) a h =
    let new = Above-contains ps (suc d) seen id a (p, up, c) in
    IsRooted-ancestry_repeats (suc fuel) ps (id ∷ seen) d p c
      ((suc d, (p, up, c), omega arith), Above-weaken ps d seen a)
      (ground (arith, new, ap (ancestry_repeats (suc fuel) ps (id ∷ seen)) up))

-- A chain that ends passes the check, with the fuel that `validate` gives.
pub ancestry_repeats-eq-false :
    (ps : Parents) (id : ℕ)
    → IsRooted ps id
    → ancestry_repeats (ancestry_fuel ps) ps [] (some id) ≡ some false
ancestry_repeats-eq-false ps id (d, c) =
    let (b, e) = ancestry_fuel_suffices ps id in
    e ∙ ap some (IsRooted-ancestry_repeats (ancestry_fuel ps) ps [] d id c tt e)
