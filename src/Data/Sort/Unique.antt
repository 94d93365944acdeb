-- ===== src/Data/Sort/Unique.antt =====
-- Sorting by a key that no two elements share leaves no choice.
use mathlib.Core.List.{Perm, Nodup-cons, mem-cons, mem-cons_self, mem-map_of_mem}
use mathlib.Core.List.Perm
use mathlib.Core.Logic.Or
use native.Mathlib.Bridge.{le_prop}
use slice.Base.{
  ℕ, ◌≡◌, ◌≤◌, sym, subst, ap, Bool, true, false, List, [], ◌∷◌, map, Mem, Nodup, All-Mem, leb,
  leb→le, arith,
}
use slice.Data.Sort.{sort, sort-perm, sort-IsSorted, IsSorted}

key_leb_total : (a b : ℕ) → leb a b ≡ false → leb b a ≡ true
key_leb_total a b h = ground arith

key_leb_trans : (a b c : ℕ) → leb a b ≡ true → leb b c ≡ true → leb a c ≡ true
key_leb_trans a b c h k = ground arith

module _ {ℓ} {A : Type ℓ} (key : A → ℕ) (set : IsSet A) where
  abbrev key_leb : A → A → Bool
  key_leb x y = leb (key x) (key y)

  first-le :
      (y : A) (ys : List A) (x : A) → IsSorted key_leb (y ∷ ys) → Mem x (y ∷ ys) → key y ≤ key x
  first-le y ys x s m =
      Or.elim (hlevel (le_prop)) (mem-cons.0 m) (λ same. omega (arith, ap key same))
        (λ later.
          leb→le (key y) (key x) (All-Mem (λ z. key_leb y z ≡ true) (λ z. hlevel) ys s.0 x later))

  -- Two sorted lists of the same elements begin with the same one.
  same_first :
      (x y : A) (xs ys : List A)
      → Perm (x ∷ xs) (y ∷ ys)
      → IsSorted key_leb (x ∷ xs)
      → IsSorted key_leb (y ∷ ys)
      → Nodup (map key (y ∷ ys))
      → x ≡ y
  same_first x y xs ys perm s t n =
      let in_ys = (Perm.mem_iff perm).0 mem-cons_self in
      let in_xs = (Perm.mem_iff perm).1 mem-cons_self in
      let same : key y ≡ key x =
        let a = first-le y ys x t in_ys in let b = first-le x xs y s in_xs in omega arith in
      Or.elim (set x y) (mem-cons.0 in_ys) (λ e. e)
        (λ later. absurd (
          (Nodup-cons.0 n).0
            (subst (λ k. Mem k (map key ys)) (sym same) (mem-map_of_mem key later))))

  sorted_unique :
      (xs ys : List A)
      → Perm xs ys
      → IsSorted key_leb xs
      → IsSorted key_leb ys
      → Nodup (map key ys)
      → xs ≡ ys
  sorted_unique [] ys perm s t n = Perm.nil-eq perm
  sorted_unique (x ∷ xs) [] perm s t n = Perm.eq-nil perm
  sorted_unique (x ∷ xs) (y ∷ ys) perm s t n =
      let same = same_first x y xs ys perm s t n in
      let rest =
        sorted_unique xs ys (Perm.cons_inv (subst (λ z. Perm (z ∷ xs) (y ∷ ys)) same perm)) s.1 t.1
          (Nodup-cons.0 n).1 in
      cc (same, rest)

  -- The order in which the elements come does not matter.
  pub sort_unique :
      (xs ys : List A) → Perm xs ys → Nodup (map key ys) → sort key_leb xs ≡ sort key_leb ys
  sort_unique xs ys perm n =
      let sorted =
        sort-IsSorted key_leb (λ a b h. key_leb_total (key a) (key b) h)
          (λ a b c h k. key_leb_trans (key a) (key b) (key c) h k) in
      sorted_unique (sort key_leb xs) (sort key_leb ys)
        (Perm.trans (sort-perm key_leb xs) (Perm.trans perm (Perm.symm (sort-perm key_leb ys))))
        (sorted xs) (sorted ys) (Perm.nodup (Perm.map key (Perm.symm (sort-perm key_leb ys))) n)
