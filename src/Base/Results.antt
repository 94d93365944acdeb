-- ===== src/Base/Results.antt =====
-- Rust's `Result`, its `?` as a bind, and a `for` loop whose body may return early.
use mathlib.Core.Path.{◌≡◌, refl, ap}
use mathlib.Core.Logic.{◌⊎◌, inl, inr}
use mathlib.Core.Bool.{Bool, true, false}
use mathlib.Core.List.{List, [], ◌∷◌}
use mathlib.Core.Option.{Option, none, some}
use native.Mathlib.Omega.{arith}
use slice.Base.Lists.{All}

-- `err` is the error that `?` passes up.
pub data Result {ℓ κ} (E : Type ℓ) (A : Type κ) : Type (ℓ ⊔ κ) where
  err : E → Result E A
  ok : A → Result E A

abbrev pub or_fail {ℓ κ} : {E : Type ℓ} {A : Type κ} → Option A → E → Result E A
or_fail none error = err error
or_fail (some value) error = ok value

abbrev pub map_err {ℓ κ μ} :
    {E : Type ℓ} {F : Type κ} {A : Type μ} → (E → F) → Result E A → Result F A
map_err into (ok value) = ok value
map_err into (err error) = err (into error)

abbrev pub guard {ℓ} : {E : Type ℓ} → Bool → E → Result E (Unit {0})
guard false error = err error
guard true error = ok tt

-- `let value = m?; next(value)`.
abbrev pub ◌>>=◌ {ℓ κ μ} :
    {E : Type ℓ} {A : Type κ} {B : Type μ} → Result E A → (A → Result E B) → Result E B
err error >>= next = err error
ok value >>= next = next value

-- `m?; next`.
abbrev pub ◌>>◌ {ℓ κ} : {E : Type ℓ} {B : Type κ} → Result E (Unit {0}) → Result E B → Result E B
m >> next = m >>= λ u. next

infixl 5 ◌>>=◌ ◌>>◌
-- `for x in xs { body(x)?; }`
abbrev pub for_each {ℓ κ} :
    {E : Type ℓ} {A : Type κ} → List A → (A → Result E (Unit {0})) → Result E (Unit {0})
for_each [] body = ok tt
for_each (x ∷ xs) body = body x >> for_each xs body

pub guard→true {ℓ} : {E : Type ℓ} (test : Bool) (e : E) → guard test e ≡ ok tt → test ≡ true
guard→true test e h = ground arith

-- What a chain of steps returns, each of its steps has let through.
pub >>-eq-ok {ℓ κ} :
    {E : Type ℓ} {B : Type κ} {value : B} (first : Result E (Unit {0})) (next : Result E B)
    → (first >> next) ≡ ok value
    → (first ≡ ok tt) × (next ≡ ok value)
>>-eq-ok (err error) next h = cc
>>-eq-ok (ok u) next h = (refl, h)

pub >>=-eq-ok {ℓ κ μ} :
    {E : Type ℓ} {A : Type κ} {B : Type μ} {value : B} (first : Result E A) (next : A → Result E B)
    → (first >>= next) ≡ ok value
    → (passed : A) × (first ≡ ok passed) × (next passed ≡ ok value)
>>=-eq-ok (err error) next h = cc
>>=-eq-ok (ok passed) next h = (passed, refl, h)

module _ {ℓ κ} {E : Type ℓ} {A : Type κ} (body : A → Result E (Unit {0})) where
  pub for_each-All : (xs : List A) → for_each xs body ≡ ok tt → All (λ x. body x ≡ ok tt) xs
  for_each-All [] h = tt
  for_each-All (x ∷ xs) h =
      let parts = >>-eq-ok (body x) (for_each xs body) h in (parts.0, for_each-All xs parts.1)

  pub All-for_each : (xs : List A) → All (λ x. body x ≡ ok tt) xs → for_each xs body ≡ ok tt
  All-for_each [] h = refl
  All-for_each (x ∷ xs) h = rw h.0 (All-for_each xs h.1)

pub Result-cases {ℓ κ} :
    {E : Type ℓ} {A : Type κ} (m : Result E A) → ((a : A) × (m ≡ ok a)) ⊎ ((e : E) × (m ≡ err e))
Result-cases (ok a) = inl (a, refl)
Result-cases (err e) = inr (e, refl)

abbrev ok_or {ℓ κ} : {E : Type ℓ} {A : Type κ} → A → Result E A → A
ok_or d (ok x) = x
ok_or d (err e) = d

pub ok-injective {ℓ κ} :
    {E : Type ℓ} {A : Type κ} {a b : A} → ◌≡◌ {A = Result E A} (ok a) (ok b) → a ≡ b
ok-injective {a} h = ap (ok_or a) h

pub or_fail-eq-ok {ℓ κ} :
    {E : Type ℓ} {A : Type κ} {a : A} (o : Option A) (e : E) → or_fail o e ≡ ok a → o ≡ some a
or_fail-eq-ok none e h = cc
or_fail-eq-ok (some x) e h = ap some (ok-injective h)

pub map_err-eq-ok {ℓ κ μ} :
    {E : Type ℓ} {F : Type κ} {A : Type μ} {a : A} (into : E → F) (m : Result E A)
    → map_err into m ≡ ok a
    → m ≡ ok a
map_err-eq-ok into (err e) h = cc
map_err-eq-ok into (ok b) h = ap ok (ok-injective h)
