-- ===== src/Core/Float.antt =====
-- crates/slice-core/src/lib.rs: `percentile_r7`. The `f64` arithmetic is the processor's, so its type
-- and operations are a parameter.
use slice.Base.{
  ℕ, suc, ◌-◌, ◌≤◌, ◌<◌, ◌≡◌, refl, Option, none, some, List, [], ◌∷◌, length, Result, ok, err,
  ◌>>=◌, arith, ◌^◌,
}

-- The operations of `f64` that the code uses; `floor` and `ceil` end in a cast to `usize`.
pub record Float : Type 1 where
  pub F64 : Type 0
  pub of_u64 : ℕ → F64
  pub of_usize : ℕ → F64
  pub add : F64 → F64 → F64
  pub sub : F64 → F64 → F64
  pub mul : F64 → F64 → F64
  pub div : F64 → F64 → F64
  -- `x.clamp(low, high)` for integral bounds.
  pub clamp : F64 → ℕ → ℕ → F64
  pub floor : F64 → ℕ
  pub ceil : F64 → ℕ

-- The whole numbers that an `f64` holds exactly.
abbrev pub exact_limit : ℕ
exact_limit = 2 ^ 53

-- What IEEE 754 gives for whole numbers and for rounding, which is monotone: a clamped whole number
-- lies within its bounds, a quotient by 100 of one up to 100 in the unit interval, and a product with
-- a factor in the unit interval does not exceed the other factor. A number up to a whole one that is
-- held exactly is rounded to a whole number up to that one.
pub record IsScaling (fl : Float) : Type 1 where
  pub le : fl.F64 → fl.F64 → Type 0
  pub clamp-le : (k : ℕ) → le (fl.clamp (fl.of_usize k) 0 100) (fl.of_usize 100)
  pub clamp-ge : (k : ℕ) → le (fl.of_usize 0) (fl.clamp (fl.of_usize k) 0 100)
  pub div-le :
      (x : fl.F64) → le x (fl.of_usize 100) → le (fl.div x (fl.of_usize 100)) (fl.of_usize 1)
  pub div-ge : (x : fl.F64) → le (fl.of_usize 0) x → le (fl.of_usize 0) (fl.div x (fl.of_usize 100))
  pub mul-le :
      (x : fl.F64) (n : ℕ)
      → le (fl.of_usize 0) x
      → le x (fl.of_usize 1)
      → le (fl.mul x (fl.of_usize n)) (fl.of_usize n)
  pub floor-le : (x : fl.F64) (n : ℕ) → n ≤ exact_limit → le x (fl.of_usize n) → fl.floor x ≤ n
  pub ceil-le : (x : fl.F64) (n : ℕ) → n ≤ exact_limit → le x (fl.of_usize n) → fl.ceil x ≤ n

-- An index or a range outside a slice stops the program.
pub data Failure (E : Type 0) : Type 0 where
  panic : Failure E
  refused : E → Failure E

-- `xs[i]`.
abbrev pub index {ℓ} : {A : Type ℓ} {E : Type 0} → List A → ℕ → Result (Failure E) A
index [] i = err panic
index (x ∷ xs) ℕ.zero = ok x
index (x ∷ xs) (ℕ.suc i) = index xs i

pub index_in_range {ℓ} :
    {A : Type ℓ} {E : Type 0} (xs : List A) (i : ℕ)
    → i < length xs
    → (x : A) × (index {E = E} xs i ≡ ok x)
index_in_range [] i h = absurd (omega arith)
index_in_range (x ∷ xs) ℕ.zero h = (x, refl)
index_in_range (x ∷ xs) (ℕ.suc i) h = index_in_range xs i (omega arith)

rank-le :
    (fl : Float) (scaling : IsScaling fl) (k n : ℕ)
    → scaling.le
        (fl.mul (fl.div (fl.clamp (fl.of_usize k) 0 100) (fl.of_usize 100)) (fl.of_usize n))
        (fl.of_usize n)
rank-le fl s k n =
    let bounded = fl.clamp (fl.of_usize k) 0 100 in
    s.mul-le (fl.div bounded (fl.of_usize 100)) n (s.div-ge bounded (s.clamp-ge k))
      (s.div-le bounded (s.clamp-le k))

module _ (fl : Float) {E : Type 0} where
  open fl use {F64, of_u64, of_usize, add, sub, mul, div, clamp, floor, ceil}

  unfoldable pub percentile_r7 : List ℕ → F64 → Result (Failure E) (Option F64)
  percentile_r7 [] percentile = ok none
  percentile_r7 (first ∷ []) percentile = ok (some (of_u64 first))
  percentile_r7 (first ∷ second ∷ others) percentile =
      let sorted_durations = first ∷ second ∷ others in
      let bounded = div (clamp percentile 0 100) (of_usize 100) in
      let rank = mul bounded (of_usize (length sorted_durations - 1)) in
      let fraction = sub rank (of_usize (floor rank)) in
      do
        low ← index sorted_durations (floor rank)
        high ← index sorted_durations (ceil rank)
        ok (some (add (of_u64 low) (mul (sub (of_u64 high) (of_u64 low)) fraction)))

  -- Of one to 2^53 durations there is a value for a whole percentile, and no index leaves the slice.
  pub percentile_r7_total :
      IsScaling fl
      → (d : ℕ) (ds : List ℕ) (k : ℕ) → length ds ≤ exact_limit
      → (v : F64) × (percentile_r7 (d ∷ ds) (of_usize k) ≡ ok (some v))
  unfolding percentile_r7
  percentile_r7_total s d [] k few = (of_u64 d, refl)
  percentile_r7_total s d (e ∷ ds) k few =
      let n = length (e ∷ ds) in
      let rank = mul (div (clamp (of_usize k) 0 100) (of_usize 100)) (of_usize (suc n - 1)) in
      let same : suc n - 1 ≡ n = omega arith in
      let within = rank-le fl s k (suc n - 1) in
      let small : suc n - 1 ≤ exact_limit = omega (arith, few) in
      let (low, el) =
        index_in_range {E = E} (d ∷ e ∷ ds) (floor rank)
          (let b = s.floor-le rank (suc n - 1) small within in omega arith) in
      let (high, eh) =
        index_in_range {E = E} (d ∷ e ∷ ds) (ceil rank)
          (let b = s.ceil-le rank (suc n - 1) small within in omega arith) in
      (
        add (of_u64 low) (mul (sub (of_u64 high) (of_u64 low)) (sub rank (of_usize (floor rank)))),
        rw (el, eh) refl,
      )
