-- ===== src/Base/Lists.antt =====
-- Lists by native numbers, predicates on all elements, and Boolean membership.
use Prim.Native.Nat.{ℕ, zero, suc, ◌+◌, ◌-◌, min, ◌≤◌}
use mathlib.Core.Path.{◌≡◌, refl, ap, sym, subst}
use mathlib.Core.Logic.{◌↔◌, inl, inr}
use mathlib.Core.Logic.Or
use mathlib.Core.Bool.{Bool, true, false, ◌||◌}
use mathlib.Core.List.{List, [], ◌∷◌, ◌++◌, map, Mem, mem-cons, mem-cons_of_mem, not-mem-nil}
use mathlib.Core.Option.{Option, none, some}
use native.Mathlib.Omega.{arith}
use slice.Base.Tests.{if◌then◌else◌, Bool-cases, ◌==◌, ==_iff}

module _ {ℓ} {A : Type ℓ} where
  abbrev pub length : List A → ℕ
  length [] = 0
  length (x ∷ xs) = suc (length xs)

  abbrev pub take : ℕ → List A → List A
  take zero xs = []
  take (suc n) [] = []
  take (suc n) (x ∷ xs) = x ∷ take n xs

  abbrev pub drop : ℕ → List A → List A
  drop zero xs = xs
  drop (suc n) [] = []
  drop (suc n) (x ∷ xs) = drop n xs

  abbrev pub get_elem? : List A → ℕ → Option A
  get_elem? [] i = none
  get_elem? (x ∷ xs) zero = some x
  get_elem? (x ∷ xs) (suc i) = get_elem? xs i

  -- `iter().filter(p)`, `iter().any(p)` and `iter().find(p)` for a Boolean test.
  abbrev pub select : (A → Bool) → List A → List A
  select p [] = []
  select p (x ∷ xs) = if p x then x ∷ select p xs else select p xs

  abbrev pub any : (A → Bool) → List A → Bool
  any p [] = false
  any p (x ∷ xs) = p x || any p xs

  abbrev pub find : (A → Bool) → List A → Option A
  find p [] = none
  find p (x ∷ xs) = if p x then some x else find p xs

  abbrev pub All {κ} : (A → Type κ) → List A → Type κ
  All P [] = Unit
  All P (x ∷ xs) = P x × All P xs

module _ {ℓ} {A : Type ℓ} where
  pub length-select : (p : A → Bool) (xs : List A) → length (select p xs) ≤ length xs
  length-select p [] = omega arith
  length-select p (x ∷ xs) = ground (arith, length-select p xs)

  pub length-append : (xs ys : List A) → length (xs ++ ys) ≡ length xs + length ys
  length-append [] ys = omega arith
  length-append (x ∷ xs) ys = omega (arith, length-append xs ys)

  pub length-take : (n : ℕ) (xs : List A) → length (take n xs) ≡ min n (length xs)
  length-take zero xs = omega arith
  length-take (suc n) [] = omega arith
  length-take (suc n) (x ∷ xs) = omega (arith, length-take n xs)

  pub length-drop : (n : ℕ) (xs : List A) → length (drop n xs) ≡ length xs - n
  length-drop zero xs = omega arith
  length-drop (suc n) [] = omega arith
  length-drop (suc n) (x ∷ xs) = omega (arith, length-drop n xs)

  pub length-map {κ} : {B : Type κ} (f : A → B) (xs : List A) → length (map f xs) ≡ length xs
  length-map f [] = refl
  length-map f (x ∷ xs) = ap suc (length-map f xs)

  pub All-append {κ} : (P : A → Type κ) (xs ys : List A) → All P xs → All P ys → All P (xs ++ ys)
  All-append P [] ys hx hy = hy
  All-append P (x ∷ xs) ys hx hy = (hx.0, All-append P xs ys hx.1 hy)

  pub All-map {κ μ} :
      (P : A → Type κ) (Q : A → Type μ)
      → ((x : A) → P x → Q x)
      → (xs : List A) → All P xs
      → All Q xs
  All-map P Q f [] h = tt
  All-map P Q f (x ∷ xs) h = (f x h.0, All-map P Q f xs h.1)

  pub All-select {κ} :
      (P : A → Type κ) (p : A → Bool) (xs : List A) → All P xs → All P (select p xs)
  All-select P p [] h = tt
  All-select P p (x ∷ xs) h = elim (Bool-cases (p x)) [
    | inl e ↦ rw e (h.0, All-select P p xs h.1)
    | inr e ↦ rw e (All-select P p xs h.1)
  ]

  pub select-All : (p : A → Bool) (xs : List A) → All (λ x. p x ≡ true) (select p xs)
  select-All p [] = tt
  select-All p (x ∷ xs) = elim (Bool-cases (p x)) [
    | inl e ↦ rw e (e, select-All p xs)
    | inr e ↦ rw e (select-All p xs)
  ]

-- Membership of a number, as a Boolean test.
abbrev pub contains : ℕ → List ℕ → Bool
contains x [] = false
contains x (y ∷ ys) = y == x || contains x ys

pub contains→Mem : (x : ℕ) (xs : List ℕ) → contains x xs ≡ true → Mem x xs
contains→Mem x [] h = absurd (ground arith)
contains→Mem x (y ∷ ys) h = elim (Bool-cases (y == x)) [
  | inl e ↦ mem-cons.1 (Or.inl (sym ((==_iff y x).0 e)))
  | inr e ↦ mem-cons.1 (Or.inr (contains→Mem x ys (ground arith)))
]

contains-tail : (x y : ℕ) (ys : List ℕ) → contains x ys ≡ true → contains x (y ∷ ys) ≡ true
contains-tail x y ys h = ground arith

pub Mem→contains : (x : ℕ) (xs : List ℕ) → Mem x xs → contains x xs ≡ true
Mem→contains x [] m = absurd (not-mem-nil m)
Mem→contains x (y ∷ ys) m =
    Or.elim (hlevel) (mem-cons.0 m) (λ e. ground arith)
      (λ t. contains-tail x y ys (Mem→contains x ys t))

pub contains_iff : (x : ℕ) (xs : List ℕ) → (contains x xs ≡ true) ↔ Mem x xs
contains_iff x xs = (contains→Mem x xs, Mem→contains x xs)

pub ¬Mem→contains : (x : ℕ) (xs : List ℕ) → ¬ Mem x xs → contains x xs ≡ false
¬Mem→contains x xs h = elim (Bool-cases (contains x xs)) [
  | inl e ↦ absurd (h (contains→Mem x xs e))
  | inr e ↦ e
]

module _ {ℓ} {A : Type ℓ} (p : A → Bool) (x : A) where
  select-Mem : (xs : List A) → Mem x (select p xs) → Mem x xs × (p x ≡ true)
  select-Mem [] m = absurd (not-mem-nil m)
  select-Mem (y ∷ ys) m = elim (Bool-cases (p y)) [
    | inl e ↦
        let m' : Mem x (y ∷ select p ys) = rw e at m in
        Or.elim (hlevel) (mem-cons.0 m')
          (λ same. (mem-cons.1 (Or.inl same), subst (λ z. p z ≡ true) (sym same) e))
          (λ t. let r = select-Mem ys t in (mem-cons_of_mem y r.0, r.1))
    | inr e ↦
        let m' : Mem x (select p ys) = rw e at m in
        let r = select-Mem ys m' in (mem-cons_of_mem y r.0, r.1)
  ]

  Mem-select : (xs : List A) → p x ≡ true → Mem x xs → Mem x (select p xs)
  Mem-select [] h m = m
  Mem-select (y ∷ ys) h m =
      Or.elim (hlevel) (mem-cons.0 m)
        (λ same. rw (subst (λ z. p z ≡ true) same h) (mem-cons.1 (Or.inl same)))
        (λ t.
          let r = Mem-select ys h t in
          elim (Bool-cases (p y)) [ inl e ↦ rw e (mem-cons_of_mem y r) | inr e ↦ rw e r ])

  pub mem-select : (xs : List A) → Mem x (select p xs) ↔ (Mem x xs × (p x ≡ true))
  mem-select xs = (select-Mem xs, λ (m, h). Mem-select xs h m)
