-- ===== src/Core/Query/Errors.antt =====
-- Which error `execute_query` returns on a well-formed profile, and when.
use slice.Base.{
  ◌≡◌, ◌≤◌, length, ◌↔◌, refl, true, false, Option, none, some, ok, err, ltb, ltb→lt, if◌then◌else◌,
  Bool-cases, Option-cases, inl, inr, ◌⊎◌,
}
use slice.Core.Float.{Float, IsScaling, exact_limit, refused}
use slice.Core.Profile.{Profile, TimeRange}
use slice.Core.Query.Failures.{execute_query_total}
use slice.Core.Query.{
  Query, QueryError, invalid_percentile_range, invalid_time_range, QueryResult, execute_query,
  validate_percentile, validate_time,
}
use slice.Core.Rank.{is_invalid}
use slice.Core.Validate.Spec.{IsWellFormed}

-- The error of a range of times that ends at or before its start.
abbrev time_refusal : Option TimeRange → Option QueryError
time_refusal none = none
time_refusal (some t) = if ltb t.from_ns t.to_ns then none else some (invalid_time_range t)

-- The percentile range is looked at first.
abbrev pub refusal : Query → Option QueryError
refusal q =
    if is_invalid q.percentile
    then some (invalid_percentile_range q.percentile)
    else time_refusal q.time

module _ (fl : Float) (scaling : IsScaling fl) (p : Profile) (q : Query)
    (few : length p.invocations ≤ exact_limit) where
  percentile_refused :
      is_invalid q.percentile ≡ true
      → (execute_query fl p q ≡ err (refused (invalid_percentile_range q.percentile)))
        × (refusal q ≡ some (invalid_percentile_range q.percentile))
  unfolding execute_query validate_percentile
  percentile_refused invalid = (rw invalid refl, rw invalid refl)

  time_refused :
      (t : TimeRange)
      → is_invalid q.percentile ≡ false
      → q.time ≡ some t
      → ltb t.from_ns t.to_ns ≡ false
      → (execute_query fl p q ≡ err (refused (invalid_time_range t)))
        × (refusal q ≡ some (invalid_time_range t))
  unfolding execute_query validate_percentile validate_time
  time_refused t valid known reversed =
      (rw (valid, known, reversed) refl, rw (valid, known, reversed) refl)

  accepted :
      IsWellFormed p
      → is_invalid q.percentile ≡ false
      → time_refusal q.time ≡ none
      → (r : QueryResult fl.F64) × (execute_query fl p q ≡ ok r) × (refusal q ≡ none)
  accepted w valid ordered =
      let (r, e) = execute_query_total fl scaling p q w few valid (λ t known.
        elim (Bool-cases (ltb t.from_ns t.to_ns)) [
          | inl e ↦ ltb→lt _ _ e
          | inr e ↦ (let h' = rw (known, e) at ordered in cc (h'))
        ]) in
      (r, e, rw valid ordered)

  -- The error of the query, or its result.
  outcome_cases :
      IsWellFormed p
      → ((e : QueryError) × (execute_query fl p q ≡ err (refused e)) × (refusal q ≡ some e))
        ⊎ ((r : QueryResult fl.F64) × (execute_query fl p q ≡ ok r) × (refusal q ≡ none))
  outcome_cases w = elim (Bool-cases (is_invalid q.percentile)) [
    | inl invalid ↦ let (a, b) = percentile_refused invalid in inl (_, a, b)
    | inr valid ↦ elim (Option-cases q.time) [
      | inl unset ↦ inr (accepted w valid (rw unset refl))
      | inr (t, known) ↦ elim (Bool-cases (ltb t.from_ns t.to_ns)) [
        | inl ordered ↦ inr (accepted w valid (rw (known, ordered) refl))
        | inr reversed ↦ let (a, b) = time_refused t valid known reversed in inl (_, a, b)
      ]
    ]
  ]

  -- On a well-formed profile of at most 2^53 invocations execute_query returns an error exactly if the
  -- percentile range or the time range of the query is invalid, the error of the percentile range if
  -- both are, and a result otherwise, if `f64` rounds as IEEE 754 demands.
  pub execute_query-refusal :
      IsWellFormed p
      → ((e : QueryError) → (execute_query fl p q ≡ err (refused e)) ↔ (refusal q ≡ some e))
        × (refusal q ≡ none → (r : QueryResult fl.F64) × (execute_query fl p q ≡ ok r))
  execute_query-refusal w = elim (outcome_cases w) [
    | inl (e, failed, known) ↦ ((λ e'. ((λ h. cc), (λ h. cc))), (λ h. cc))
    | inr (r, succeeded, known) ↦ ((λ e. ((λ h. cc), (λ h. cc))), (λ h. (r, succeeded)))
  ]
