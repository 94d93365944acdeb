-- ===== src/Data/Sort/Prefix.antt =====
-- What sorting keeps of a list, and the first elements of a sorted list.
use mathlib.Core.List.{mem-cons, not-mem-nil, mem-cons_of_mem}
use mathlib.Core.Logic.Or
use slice.Base.{
  ℕ, zero, suc, ◌≡◌, refl, ap, Bool, true, List, [], ◌∷◌, All, Mem, All-Mem, Bool-cases, inl, inr,
  take, length,
}
use slice.Data.Sort.{insert, sort, insert-All, sort-All, IsSorted}

module _ {ℓ} {A : Type ℓ} (le apart : A → A → Bool)
    (symmetric : (x y : A) → apart x y ≡ true → apart y x ≡ true) where
  insert-IsSorted_apart :
      (x : A) (xs : List A)
      → All (λ y. apart x y ≡ true) xs
      → IsSorted apart xs
      → IsSorted apart (insert le x xs)
  unfolding insert
  insert-IsSorted_apart x [] h s = (tt, tt)
  insert-IsSorted_apart x (y ∷ ys) h s = elim (Bool-cases (le x y)) [
    | inl e ↦ rw e (h, s)
    | inr e ↦ rw e (
      insert-All le (λ z. apart y z ≡ true) x ys (symmetric x y h.0) s.0,
      insert-IsSorted_apart x ys h.1 s.1,
    )
  ]

  -- A symmetric relation between all elements stays one, whatever the order.
  pub sort-IsSorted_apart : (xs : List A) → IsSorted apart xs → IsSorted apart (sort le xs)
  unfolding sort
  sort-IsSorted_apart [] s = tt
  sort-IsSorted_apart (x ∷ xs) s =
      insert-IsSorted_apart x (sort le xs) (sort-All le (λ y. apart x y ≡ true) xs s.0)
        (sort-IsSorted_apart xs s.1)

module _ {ℓ} {A : Type ℓ} where
  pub take-All {κ} : (P : A → Type κ) (n : ℕ) (xs : List A) → All P xs → All P (take n xs)
  take-All P zero xs a = tt
  take-All P (suc n) [] a = tt
  take-All P (suc n) (x ∷ xs) a = (a.0, take-All P n xs a.1)

  pub take-IsSorted :
      (le : A → A → Bool) (n : ℕ) (xs : List A) → IsSorted le xs → IsSorted le (take n xs)
  take-IsSorted le zero xs s = tt
  take-IsSorted le (suc n) [] s = tt
  take-IsSorted le (suc n) (x ∷ xs) s =
      (take-All (λ y. le x y ≡ true) n xs s.0, take-IsSorted le n xs s.1)

  -- An element of a sorted list that is not among the first `n` stands behind `n` others.
  pub take-misses :
      (le : A → A → Bool) (x : A) (n : ℕ) (xs : List A)
      → IsSorted le xs
      → Mem x xs
      → ¬ Mem x (take n xs)
      → (length (take n xs) ≡ n) × All (λ y. le y x ≡ true) (take n xs)
  take-misses le x zero xs s m missing = (refl, tt)
  take-misses le x (suc n) [] s m missing = absurd (not-mem-nil m)
  take-misses le x (suc n) (y ∷ ys) s m missing =
      let later : Mem x ys =
        Or.elim (hlevel) (mem-cons.0 m) (λ same. absurd (missing (mem-cons.1 (Or.inl same))))
          (λ t. t) in
      let (full, behind) = take-misses le x n ys s.1 later (λ k. missing (mem-cons_of_mem y k)) in
      (ap suc full, (All-Mem (λ z. le y z ≡ true) (λ z. hlevel) ys s.0 x later, behind))
