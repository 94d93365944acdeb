-- ===== src/Base/Members.antt =====
-- A predicate on all elements of a list, and on its members.
use mathlib.Core.List.{
  List, [], ◌∷◌, reverse_aux, Mem, Perm, mem-cons, mem-cons_of_mem, not-mem-nil,
}
use mathlib.Core.List.Perm
use mathlib.Core.Logic.Or
use mathlib.Core.Path.{refl, sym, subst}
use slice.Base.Lists.{All}

pub All-prop {ℓ κ} :
    {A : Type ℓ} (P : A → Type κ) → ((x : A) → IsProp (P x)) → (xs : List A) → IsProp (All P xs)
All-prop P h [] = hlevel
All-prop P h (x ∷ xs) = let a = h x in let b = All-prop P h xs in hlevel (a, b)

pub All-Mem {ℓ κ} :
    {A : Type ℓ} (P : A → Type κ)
    → ((x : A) → IsProp (P x))
    → (xs : List A) → All P xs
    → (x : A) → Mem x xs
    → P x
All-Mem P h [] a x m = absurd (not-mem-nil m)
All-Mem P h (y ∷ ys) a x m =
    Or.elim (h x) (mem-cons.0 m) (λ e. subst P (sym e) a.0) (All-Mem P h ys a.1 x)

pub Mem-All {ℓ κ} :
    {A : Type ℓ} (P : A → Type κ) (xs : List A) → ((x : A) → Mem x xs → P x) → All P xs
Mem-All P [] h = tt
Mem-All P (x ∷ xs) h =
    (h x (mem-cons.1 (Or.inl refl)), Mem-All P xs (λ y m. h y (mem-cons_of_mem x m)))

-- A property of all elements does not depend on their order.
pub All-Perm {ℓ κ} :
    {A : Type ℓ} (P : A → Type κ)
    → ((x : A) → IsProp (P x))
    → (xs ys : List A) → Perm ys xs
    → All P xs
    → All P ys
All-Perm P h xs ys perm a = Mem-All P ys (λ y m. All-Mem P h xs a y ((Perm.mem_iff perm).0 m))

pub All-reverse {ℓ κ} :
    {A : Type ℓ} (P : A → Type κ) (xs acc : List A)
    → All P xs
    → All P acc
    → All P (reverse_aux xs acc)
All-reverse P [] acc a b = b
All-reverse P (x ∷ xs) acc a b = All-reverse P xs (x ∷ acc) a.1 (a.0, b)
