-- ===== src/Ebpf/Session/Steps.antt =====
-- What the steps of a sequence of effects make of the whole.
use mathlib.Core.List.{Mem, mem-append, mem-cons}
use mathlib.Core.Logic.Or
use slice.Base.{
  arith, ◌≡◌, refl, ◌∙◌, Bool, true, false, ◌||◌, List, [], ◌∷◌, ◌++◌, any, Result, ok, err, inl,
  inr, Bool-cases,
}
use slice.Ebpf.Session.{Effect, CaptureFailure, Session, ◌>>=◌, perform}

pub any-append {ℓ} :
    {A : Type ℓ} (test : A → Bool) (xs ys : List A)
    → any test (xs ++ ys) ≡ (any test xs || any test ys)
any-append test [] ys = refl
any-append test (x ∷ xs) ys = elim (Bool-cases (test x)) [
  | inl e ↦ rw e refl
  | inr e ↦ rw e (any-append test xs ys)
]

abbrev pub IsWithin : List Effect → List Effect → Type 0
IsWithin some_of all = (effect : Effect) → Mem effect some_of → Mem effect all

pub any-append_false {ℓ} :
    {A : Type ℓ} (test : A → Bool) (xs ys : List A)
    → any test (xs ++ ys) ≡ false
    → (any test xs ≡ false) × (any test ys ≡ false)
any-append_false test xs ys h = let h' = rw any-append at h in ground arith

-- A chain that returns a value, step by step.
pub >>=-returns {ℓ κ} :
    {A : Type ℓ} {B : Type κ} {b : B} (m : Session A) (next : A → Session B)
    → (m >>= next).1 ≡ ok b
    → (a : A) × (m.1 ≡ ok a)
      × ((next a).1 ≡ ok b)
      × IsWithin m.0 (m >>= next).0
      × IsWithin (next a).0 (m >>= next).0
>>=-returns (done, err e) next h = cc
>>=-returns (done, ok a) next h =
    (a, refl, h, (λ x m. mem-append.1 (Or.inl m)), (λ x m. mem-append.1 (Or.inr m)))

-- If the steps return a value, the effect is among theirs.
abbrev pub Ensures {ℓ} : Effect → {A : Type ℓ} → Session A → Type ℓ
Ensures effect {A} m = (a : A) → m.1 ≡ ok a → Mem effect m.0

module _ (effect : Effect) where
  pub >>=-Ensures_first {ℓ κ} :
      {A : Type ℓ} {B : Type κ} (m : Session A) (next : A → Session B)
      → Ensures effect m
      → Ensures effect (m >>= next)
  >>=-Ensures_first (done, err e) next h b returned = cc
  >>=-Ensures_first (done, ok a) next h b returned = mem-append.1 (Or.inl (h a refl))

  pub >>=-Ensures_next {ℓ κ} :
      {A : Type ℓ} {B : Type κ} (m : Session A) (next : A → Session B)
      → ((a : A) → Ensures effect (next a))
      → Ensures effect (m >>= next)
  >>=-Ensures_next (done, err e) next h b returned = cc
  >>=-Ensures_next (done, ok a) next h b returned = mem-append.1 (Or.inr (h a b returned))

  pub perform-Ensures :
      (answer : Result CaptureFailure (Unit {0})) → Ensures effect (perform effect answer)
  perform-Ensures (err e) u returned = cc
  perform-Ensures (ok v) u returned = mem-cons.1 (Or.inl refl)

-- Effects that pass no test of this kind.
module _ (test : Effect → Bool) where
  abbrev pub IsQuiet {ℓ} : {A : Type ℓ} → Session A → Type 0
  IsQuiet m = any test m.0 ≡ false

  pub >>=-IsQuiet {ℓ κ} :
      {A : Type ℓ} {B : Type κ} (m : Session A) (next : A → Session B)
      → IsQuiet m
      → ((a : A) → IsQuiet (next a))
      → IsQuiet (m >>= next)
  >>=-IsQuiet (done, err e) next h k = h
  >>=-IsQuiet (done, ok a) next h k = any-append test done (next a).0 ∙ rw h (k a)

  pub perform-IsQuiet :
      (effect : Effect) (answer : Result CaptureFailure (Unit {0}))
      → test effect ≡ false
      → IsQuiet (perform effect answer)
  perform-IsQuiet effect (err e) h = refl
  perform-IsQuiet effect (ok u) h = rw h refl

  -- If an effect passes the test and none of the first step does, then the first step has succeeded
  -- and the effect is one of the rest.
  pub >>=-passes {ℓ κ} :
      {A : Type ℓ} {B : Type κ} (m : Session A) (next : A → Session B)
      → IsQuiet m
      → any test (m >>= next).0 ≡ true
      → (a : A) × (m.1 ≡ ok a) × (any test (next a).0 ≡ true) × ((m >>= next).0 ≡ m.0 ++ (next a).0)
  >>=-passes (done, err e) next quiet h = let h' = rw quiet at h in cc (h')
  >>=-passes (done, ok a) next quiet h =
      (a, refl, (let h' = rw (any-append test done (next a).0, quiet) at h in h'), refl)
