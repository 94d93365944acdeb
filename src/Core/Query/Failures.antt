-- ===== src/Core/Query/Failures.antt =====
-- When `execute_query` fails: never by an index outside a slice, and on a well-formed profile only
-- for an invalid percentile or time range.
use slice.Base.{
  ℕ, ◌-◌, ◌<◌, ◌≤◌, select, length-map, length-select, ◌≡◌, ◌≢◌, refl, Bool, true, false, not, ◌||◌,
  Option, none, some, List, [], ◌∷◌, map, length, take, drop, All, ok, err, arith, Option-cases,
  Bool-cases, inl, inr, contains, contains_iff, ◌>>=◌, guard, lt→ltb, All-map, ◌==◌, Mem,
}
use slice.Core.Float.{
  Float, IsScaling, exact_limit, panic, refused, percentile_r7, percentile_r7_total,
}
use slice.Core.Profile.{Profile, Invocation, Sample, Stack, TimeRange, Frame, includes, duration_ns}
use slice.Core.Query.{
  Query, QueryError, QueryResult, Answer, is_candidate, slower_or_equal, candidates, slice_range,
  execute_query, measure, report, result_of, Totals, no_totals, validate_percentile, validate_time,
  add_samples, add_sample, stack_of, count_frames,
}
use slice.Core.Query.Population.{slice_range_ok}
use slice.Core.Rank.{PercentileRange, is_invalid, rank_bounds}
use slice.Core.Rank.Bounds.{rank_bounds_in_range}
use slice.Data.Sort.{length-sort}
use slice.Core.Validate.Spec.{IsWellFormed, stack_ids}

stack_of_known :
    (ss : List Stack) (id : ℕ)
    → contains id (map (λ s. s.id) ss) ≡ true
    → (frames : List Frame) × (stack_of ss id ≡ some frames)
unfolding stack_of
stack_of_known [] id h = cc
stack_of_known (s ∷ ss) id h = elim (Option-cases (stack_of ss id)) [
  | inr (frames, e) ↦ (frames, rw (e, stack_of) refl)
  | inl e ↦ elim (Bool-cases (s.id == id)) [
    | inl hit ↦ (s.frames, ground arith)
    | inr miss ↦ let (frames, found) = stack_of_known ss id (ground arith) in (frames, ground arith)
  ]
]

module _ (p : Profile) (q : Query) (ids : List ℕ) where
  add_sample_total :
      (t : Totals) (s : Sample)
      → Mem s.stack_id (stack_ids p)
      → (t' : Totals) × (add_sample p q ids t s ≡ ok t')
  unfolding add_sample
  add_sample_total t s known =
      let (frames, found) =
        stack_of_known p.stacks s.stack_id ((contains_iff _ (stack_ids p)).1 known) in
      elim (Bool-cases (not (contains s.invocation_id ids) || not (includes q.metric s.state))) [
        | inl skipped ↦ (t, rw skipped refl)
        | inr counted ↦ (count_frames p q t s frames, rw (counted, found) refl)
      ]

  add_samples_total :
      (t : Totals) (ss : List Sample)
      → All (λ s. Mem s.stack_id (stack_ids p)) ss
      → (t' : Totals) × (add_samples p q ids t ss ≡ ok t')
  unfolding add_samples
  add_samples_total t [] known = (t, refl)
  add_samples_total t (s ∷ ss) known =
      let (t', e) = add_sample_total t s known.0 in
      let (t'', e') = add_samples_total t' ss known.1 in (t'', rw e e')

validate_time_ok :
    (time : Option TimeRange)
    → ((t : TimeRange) → time ≡ some t → t.from_ns < t.to_ns)
    → validate_time time ≡ ok tt
unfolding validate_time
validate_time_ok none h = refl
validate_time_ok (some t) h = rw (lt→ltb _ _ (h t refl)) refl

percentiles_total :
    (fl : Float)
    → IsScaling fl
    → (ds : List ℕ) (k : ℕ) → length ds ≤ exact_limit
    → (o : Option fl.F64) × (percentile_r7 fl {E = QueryError} ds (fl.of_usize k) ≡ ok o)
percentiles_total fl s [] k few = (none, unfold percentile_r7 in refl)
percentiles_total fl s (d ∷ ds) k few =
    let (x, e) = percentile_r7_total fl s d ds k (omega (arith, few)) in (some x, e)

length-candidates : (p : Profile) (q : Query) → length (candidates p q) ≤ length p.invocations
unfolding candidates
length-candidates p q = omega (
  arith,
  length-sort slower_or_equal (select (is_candidate q) p.invocations),
  length-select (is_candidate q) p.invocations,
)

slice_total :
    (items : List Invocation) (r : PercentileRange)
    → is_invalid r ≡ false
    → (taken : List Invocation) × (slice_range items (rank_bounds (length items) r) ≡ ok taken)
slice_total items r valid =
    let (start, end) = rank_bounds (length items) r in
    let within = rank_bounds_in_range (length items) r (ground arith) in
    (take (end - start) (drop start items), slice_range_ok items start end within.0 within.1)

module _ (fl : Float) (scaling : IsScaling fl) (p : Profile) (q : Query) where
  report_total :
      (sorted selected : List Invocation) (t : Totals)
      → length sorted ≤ exact_limit
      → (r : QueryResult fl.F64) × (report fl q sorted selected t ≡ ok r)
  unfolding report
  report_total sorted selected t few =
      let ds = map duration_ns sorted in
      let few' : length ds ≤ exact_limit = omega (arith, few, length-map duration_ns sorted) in
      let (low, el) = percentiles_total fl scaling ds q.percentile.low few' in
      let (high, eh) = percentiles_total fl scaling ds q.percentile.high few' in
      (result_of fl.F64 sorted selected t low high, rw (el, eh) refl)

  -- On a well-formed profile of at most 2^53 invocations a query with a valid percentile range and a
  -- valid time range returns a result, if `f64` rounds as IEEE 754 demands.
  pub execute_query_total :
      IsWellFormed p
      → length p.invocations ≤ exact_limit
      → is_invalid q.percentile ≡ false
      → ((t : TimeRange) → q.time ≡ some t → t.from_ns < t.to_ns)
      → (r : QueryResult fl.F64) × (execute_query fl p q ≡ ok r)
  unfolding execute_query measure validate_percentile
  execute_query_total w few valid ordered =
      let (selected, e1) = slice_total (candidates p q) q.percentile valid in
      let (t, e2) =
        add_samples_total p q (map (λ i. i.id) selected) no_totals p.samples
          (All-map _ _ (λ s h. h.0) p.samples w.sound_samples) in
      let (r, e3) =
        report_total (candidates p q) selected t (omega (arith, few, length-candidates p q)) in
      (r, rw (valid, validate_time_ok q.time ordered, e1, e2) e3)

-- A result that is no panic, and what keeps it so.
abbrev NoPanic {ℓ} : {A : Type ℓ} → Answer A → Type 0
NoPanic (ok a) = Unit
NoPanic (err panic) = ⊥
NoPanic (err (refused e)) = Unit

NoPanic-bind {ℓ κ} :
    {A : Type ℓ} {B : Type κ} (m : Answer A) (f : A → Answer B)
    → NoPanic m
    → ((a : A) → NoPanic (f a))
    → NoPanic (m >>= f)
NoPanic-bind (ok a) f h k = k a
NoPanic-bind (err panic) f h k = h
NoPanic-bind (err (refused e)) f h k = h

NoPanic-ok {ℓ} : {A : Type ℓ} (m : Answer A) {a : A} → m ≡ ok a → NoPanic m
NoPanic-ok m e = rw e tt

add_sample-NoPanic :
    (p : Profile) (q : Query) (ids : List ℕ) (t : Totals) (s : Sample)
    → NoPanic (add_sample p q ids t s)
unfolding add_sample
add_sample-NoPanic p q ids t s =
    elim (Bool-cases (not (contains s.invocation_id ids) || not (includes q.metric s.state))) [
      | inl skipped ↦ rw skipped tt
      | inr counted ↦ elim (Option-cases (stack_of p.stacks s.stack_id)) [
        | inl missing ↦ rw (counted, missing) tt
        | inr (frames, found) ↦ rw (counted, found) tt
      ]
    ]

add_samples-NoPanic :
    (p : Profile) (q : Query) (ids : List ℕ) (t : Totals) (ss : List Sample)
    → NoPanic (add_samples p q ids t ss)
unfolding add_samples
add_samples-NoPanic p q ids t [] = tt
add_samples-NoPanic p q ids t (s ∷ ss) =
    NoPanic-bind (add_sample p q ids t s) (λ t'. add_samples p q ids t' ss)
      (add_sample-NoPanic p q ids t s) (λ t'. add_samples-NoPanic p q ids t' ss)

NoPanic-guard : (b : Bool) (e : QueryError) → NoPanic (guard b (refused e))
NoPanic-guard true e = tt
NoPanic-guard false e = tt

validate_time-NoPanic : (time : Option TimeRange) → NoPanic (validate_time time)
unfolding validate_time
validate_time-NoPanic none = tt
validate_time-NoPanic (some t) = NoPanic-guard _ _

NoPanic-ne {ℓ} : {A : Type ℓ} (m : Answer A) → NoPanic m → m ≢ err panic
NoPanic-ne (ok a) h e = cc
NoPanic-ne (err panic) h e = h
NoPanic-ne (err (refused x)) h e = cc

module _ (fl : Float) (scaling : IsScaling fl) (p : Profile) (q : Query) where
  measure-NoPanic :
      (sorted selected : List Invocation)
      → length sorted ≤ exact_limit
      → NoPanic (measure fl p q sorted selected)
  unfolding measure
  measure-NoPanic sorted selected few =
      let ids = map (λ i. i.id) selected in
      NoPanic-bind (add_samples p q ids no_totals p.samples) (report fl q sorted selected)
        (add_samples-NoPanic p q ids no_totals p.samples)
        (λ t. NoPanic-ok _ (report_total fl scaling p q sorted selected t few).1)

  -- Whatever the query and the profile, of at most 2^53 invocations, no slice or index of
  -- `execute_query` is out of range, if `f64` rounds as IEEE 754 demands.
  pub execute_query_never_panics :
      length p.invocations ≤ exact_limit → execute_query fl p q ≢ err panic
  unfolding execute_query validate_percentile
  execute_query_never_panics few = elim (Bool-cases (is_invalid q.percentile)) [
    | inl invalid ↦ rw invalid (λ e. cc)
    | inr valid ↦
        let (selected, taken) = slice_total (candidates p q) q.percentile valid in
        rw valid (
          NoPanic-ne _ (
            NoPanic-bind (validate_time q.time) _ (validate_time-NoPanic q.time) (λ u. rw taken (
              measure-NoPanic (candidates p q) selected
                (omega (arith, few, length-candidates p q))))))
  ]
