-- ===== src/Cli/Arguments/Laws.antt =====
-- What the parsers of arguments return when they accept.
use slice.Base.{
  ◌≡◌, ◌<◌, false, Option, none, some, ok, err, ltb→lt, Option-cases, Result-cases, inl, inr, ltb,
  Result, Bool-cases,
}
use slice.Cli.Arguments.{parse_percentile, in_order, parse_time, forward, parse_duration_ns}
use slice.Core.Profile.{TimeRange}
use slice.Core.Rank.{PercentileRange, is_invalid}
use slice.Data.Numerals.{parse_unsigned, split_once}
use slice.Data.Text.{Text}

-- A result, if there is one, has the property.
abbrev Yields {ℓ κ} : {E : Type ℓ} {A : Type κ} → (A → Type 0) → Result E A → Type 0
Yields P (ok a) = P a
Yields P (err e) = Unit

Yields-ok {ℓ κ} :
    {E : Type ℓ} {A : Type κ} (P : A → Type 0) (m : Result E A) {a : A}
    → Yields P m
    → m ≡ ok a
    → P a
Yields-ok P m y e = rw e at y

abbrev IsValid : PercentileRange → Type 0
IsValid r = is_invalid r ≡ false

abbrev IsForward : TimeRange → Type 0
IsForward r = r.from_ns < r.to_ns

in_order-IsValid : (range : PercentileRange) → Yields IsValid (in_order range)
unfolding in_order
in_order-IsValid range = elim (Bool-cases (is_invalid range)) [
  | inl invalid ↦ rw invalid tt
  | inr valid ↦ rw valid valid
]

forward-ordered : (range : TimeRange) → Yields IsForward (forward range)
unfolding forward
forward-ordered range = elim (Bool-cases (ltb range.from_ns range.to_ns)) [
  | inl ordered ↦ rw ordered (ltb→lt _ _ ordered)
  | inr reversed ↦ rw reversed tt
]

parse_percentile-Yields : (value : Text) → Yields IsValid (parse_percentile value)
unfolding parse_percentile
parse_percentile-Yields value = elim (Option-cases (split_once 58 value)) [
  | inl e ↦ rw e tt
  | inr ((low, high), e) ↦ elim (Option-cases (parse_unsigned 255 low)) [
    | inl el ↦ rw (e, el) tt
    | inr (l, el) ↦ elim (Option-cases (parse_unsigned 255 high)) [
      | inl eh ↦ rw (e, el, eh) tt
      | inr (h, eh) ↦ rw (e, el, eh) (in_order-IsValid _)
    ]
  ]
]

parse_time-Yields :
    (value : Text) (bounds : Option TimeRange) → Yields IsForward (parse_time value bounds)
unfolding parse_time
parse_time-Yields value none = tt
parse_time-Yields value (some bounds) = elim (Option-cases (split_once 58 value)) [
  | inl e ↦ rw e tt
  | inr ((low, high), e) ↦ elim (Result-cases (parse_duration_ns low)) [
    | inr (x, el) ↦ rw (e, el) tt
    | inl (l, el) ↦ elim (Result-cases (parse_duration_ns high)) [
      | inr (x, eh) ↦ rw (e, el, eh) tt
      | inl (h, eh) ↦ rw (e, el, eh) (forward-ordered _)
    ]
  ]
]

-- A percentile range that the command line accepts passes the check of the query.
pub parse_percentile-valid :
    (value : Text) (r : PercentileRange) → parse_percentile value ≡ ok r → is_invalid r ≡ false
parse_percentile-valid value r h = Yields-ok IsValid _ (parse_percentile-Yields value) h

-- A time range that the command line accepts passes the check of the query.
pub parse_time-ordered :
    (value : Text) (bounds : Option TimeRange) (r : TimeRange)
    → parse_time value bounds ≡ ok r
    → r.from_ns < r.to_ns
parse_time-ordered value bounds r h = Yields-ok IsForward _ (parse_time-Yields value bounds) h
