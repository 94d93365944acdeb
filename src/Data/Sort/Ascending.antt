-- ===== src/Data/Sort/Ascending.antt =====
-- `ascending` lists the elements of a list, each once.
use mathlib.Core.List.{Nodup-cons, Nodup-nil, mem-cons, mem-cons_of_mem, not-mem-nil}
use mathlib.Core.List.Perm
use mathlib.Core.Logic.Or
use slice.Base.{
  ℕ, ◌≡◌, ◌<◌, ◌↔◌, sym, subst, true, false, List, [], ◌∷◌, Mem, Nodup, All, All-map, Bool-cases,
  inl, inr, ◌==◌, ==_iff, leb, arith, leb→le,
}
use slice.Data.Sort.{dedup_from, dedup, ascending, sort, sort-perm, sort-IsSorted, IsSorted}

above : (x : ℕ) (ys : List ℕ) → All (λ y. x < y) ys → ¬ Mem x ys
above x [] a m = not-mem-nil m
above x (y ∷ ys) a m =
    Or.elim (hlevel) (mem-cons.0 m) (λ same. omega (arith, same, a.0)) (λ t. above x ys a.1 t)

dedup_from-above :
    (x : ℕ) (ys : List ℕ)
    → All (λ y. leb x y ≡ true) ys
    → IsSorted leb ys
    → All (λ y. x < y) (dedup_from x ys)
dedup_from-above x [] a s = tt
dedup_from-above x (y ∷ ys) a s = elim (Bool-cases (x == y)) [
  | inl e ↦ rw e (dedup_from-above x ys a.1 s.1)
  | inr e ↦
      let lt : x < y = let le = leb→le x y a.0 in ground arith in
      rw e (lt, All-map _ _ (λ z h. omega (arith, lt, h)) _ (dedup_from-above y ys s.0 s.1))
]

dedup_from-Nodup :
    (x : ℕ) (ys : List ℕ)
    → All (λ y. leb x y ≡ true) ys
    → IsSorted leb ys
    → Nodup (x ∷ dedup_from x ys)
dedup_from-Nodup x [] a s = Nodup-cons.1 (not-mem-nil, Nodup-nil)
dedup_from-Nodup x (y ∷ ys) a s = elim (Bool-cases (x == y)) [
  | inl e ↦ rw e (dedup_from-Nodup x ys a.1 s.1)
  | inr e ↦
      Nodup-cons.1
        (above x _ (dedup_from-above x (y ∷ ys) a s), rw e (dedup_from-Nodup y ys s.0 s.1))
]

Mem-dedup_from : (z x : ℕ) (ys : List ℕ) → Mem z (x ∷ ys) → Mem z (x ∷ dedup_from x ys)
Mem-dedup_from z x [] m = m
Mem-dedup_from z x (y ∷ ys) m = elim (Bool-cases (x == y)) [
  | inl e ↦
      let same = (==_iff x y).0 e in
      rw e (
        Or.elim (hlevel) (mem-cons.0 m) (λ here. mem-cons.1 (Or.inl here))
          (λ t. Mem-dedup_from z x ys (subst (λ w. Mem z (w ∷ ys)) (sym same) t)))
  | inr e ↦ rw e (
      Or.elim (hlevel) (mem-cons.0 m) (λ here. mem-cons.1 (Or.inl here))
        (λ t. mem-cons_of_mem x (Mem-dedup_from z y ys t)))
]

dedup_from-Mem : (z x : ℕ) (ys : List ℕ) → Mem z (x ∷ dedup_from x ys) → Mem z (x ∷ ys)
dedup_from-Mem z x [] m = m
dedup_from-Mem z x (y ∷ ys) m = elim (Bool-cases (x == y)) [
  | inl e ↦
      let m' : Mem z (x ∷ dedup_from x ys) = rw e at m in
      Or.elim (hlevel) (mem-cons.0 (dedup_from-Mem z x ys m')) (λ here. mem-cons.1 (Or.inl here))
        (λ t. mem-cons_of_mem x (mem-cons_of_mem y t))
  | inr e ↦
      let m' : Mem z (x ∷ y ∷ dedup_from y ys) = rw e at m in
      Or.elim (hlevel) (mem-cons.0 m') (λ here. mem-cons.1 (Or.inl here))
        (λ t. mem-cons_of_mem x (dedup_from-Mem z y ys t))
]

leb_total : (a b : ℕ) → leb a b ≡ false → leb b a ≡ true
leb_total a b h = ground arith

leb_trans : (a b c : ℕ) → leb a b ≡ true → leb b c ≡ true → leb a c ≡ true
leb_trans a b c h k = ground arith

dedup-Nodup : (xs : List ℕ) → IsSorted leb xs → Nodup (dedup xs)
unfolding dedup
dedup-Nodup [] s = Nodup-nil
dedup-Nodup (x ∷ xs) s = dedup_from-Nodup x xs s.0 s.1

Mem-dedup : (z : ℕ) (xs : List ℕ) → Mem z (dedup xs) ↔ Mem z xs
unfolding dedup
Mem-dedup z [] = (λ m. m, λ m. m)
Mem-dedup z (x ∷ xs) = (dedup_from-Mem z x xs, Mem-dedup_from z x xs)

-- Every element of the list, and nothing else, stands once in the result.
pub ascending-Nodup :
    (xs : List ℕ) → Nodup (ascending xs) × ((z : ℕ) → Mem z (ascending xs) ↔ Mem z xs)
unfolding ascending
ascending-Nodup xs = (
  dedup-Nodup (sort leb xs) (sort-IsSorted leb leb_total leb_trans xs),
  λ z.
      let d = Mem-dedup z (sort leb xs) in
      (
        λ m. (Perm.mem_iff (sort-perm leb xs)).0 (d.0 m),
        λ m. d.1 ((Perm.mem_iff (sort-perm leb xs)).1 m),
      ),
)
