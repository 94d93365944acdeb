-- ===== src/Core/Query.antt =====
-- crates/slice-core/src/lib.rs: `execute_query`.
pub mod Population
pub mod Errors
pub mod Failures
pub mod Meaning
pub mod Runs
pub mod Sums
use slice.Base.{
  ℕ, ◌+◌, ◌-◌, ◌≡◌, Bool, true, false, not, ◌&&◌, ◌||◌, Option, none, some, List, [], ◌∷◌, map,
  length, take, drop, select, find, contains, ltb, leb, ◌==◌, if◌then◌else◌, is_some_and,
  is_none_or, Result, ok, err, guard, or_fail, map_err, ◌>>=◌, ◌>>◌,
}
use slice.Core.Float.{Float, Failure, panic, refused, percentile_r7}
use slice.Core.Profile.{
  Profile, Function, Invocation, Stack, Frame, Sample, ExecutionState, Metric, TimeRange, includes,
  contains_start, duration_ns,
}
use slice.Core.Rank.{PercentileRange, is_invalid, rank_bounds}
use slice.Core.Tree.{FlameNode, empty, TreeBuilder, default, insert, finish}
use slice.Data.Sort.{sort}
use slice.Data.Text.{Text, codes, text_eq}
use slice.Data.Words.{sat_add}

pub record Query : Type 0 where
  pub function_id : ℕ
  pub threads : Option (List ℕ)
  pub time : Option TimeRange
  pub percentile : PercentileRange
  pub metric : Metric

pub data QueryError : Type 0 where
  invalid_percentile_range : PercentileRange → QueryError
  invalid_time_range : TimeRange → QueryError
  unknown_stack : ℕ → QueryError

abbrev pub Answer {ℓ} : Type ℓ → Type ℓ
Answer A = Result (Failure QueryError) A

-- `PercentileRange::validate`.
unfoldable pub validate_percentile : PercentileRange → Answer (Unit {0})
validate_percentile r = guard (not (is_invalid r)) (refused (invalid_percentile_range r))

unfoldable pub validate_time : Option TimeRange → Answer (Unit {0})
validate_time none = ok tt
validate_time (some time) = guard (ltb time.from_ns time.to_ns) (refused (invalid_time_range time))

-- The four filters, in their order.
abbrev pub is_candidate : Query → Invocation → Bool
is_candidate q i =
    (i.function_id == q.function_id)
    && ((i.complete && i.valid)
        && (is_none_or (contains i.tid) q.threads
            && is_none_or (λ time. contains_start time i.start_ns) q.time))

-- The order of the key `(duration_ns, id)`.
abbrev pub slower_or_equal : Invocation → Invocation → Bool
slower_or_equal i j =
    ltb (duration_ns i) (duration_ns j) || ((duration_ns i == duration_ns j) && leb i.id j.id)

unfoldable pub candidates : Profile → Query → List Invocation
candidates p q = sort slower_or_equal (select (is_candidate q) p.invocations)

-- `&items[start..end]`.
unfoldable pub slice_range {ℓ} : {A : Type ℓ} → List A → ℕ × ℕ → Answer (List A)
slice_range items (start, end) =
    if leb start end && leb end (length items)
    then ok (take (end - start) (drop start items))
    else err panic

-- The map from the id of a stack to its frames: a later stack replaces an earlier one.
unfoldable pub stack_of : List Stack → ℕ → Option (List Frame)
stack_of [] id = none
stack_of (s ∷ ss) id = elim (stack_of ss id) [
  | some frames ↦ some frames
  | none ↦ if s.id == id then some s.frames else none
]

unfoldable pub selected_name : Profile → ℕ → Option Text
selected_name p id = elim (find (λ f. f.id == id) p.functions) [
  | none ↦ none
  | some f ↦ some f.demangled_name
]

-- Does the frame belong to the queried function?
abbrev pub is_start_frame : ℕ → Option Text → Frame → Bool
is_start_frame function_id name frame =
    is_some_and (λ id. id == function_id) frame.function_id
    || is_some_and (text_eq frame.label) name

-- The frames from the first that passes the test.
unfoldable pub frames_from : (Frame → Bool) → List Frame → Option (List Frame)
frames_from test [] = none
frames_from test (f ∷ fs) = if test f then some (f ∷ fs) else frames_from test fs

-- The variables of the loop over the samples.
pub record Totals : Type 0 where
  pub tree : TreeBuilder
  pub sampled_cpu_ns : ℕ
  pub off_cpu_ns : ℕ

abbrev pub no_totals : Totals
no_totals = record { tree = default; sampled_cpu_ns = 0; off_cpu_ns = 0 }

unfoldable pub count_sample : Totals → List Frame → Sample → Totals
count_sample t frames s = elim s.state [
  | ExecutionState.on_cpu ↦ record t {
    tree = insert frames s.weight_ns t.tree;
    sampled_cpu_ns = sat_add t.sampled_cpu_ns s.weight_ns;
  }
  | ExecutionState.off_cpu ↦ record t {
    tree = insert frames s.weight_ns t.tree;
    off_cpu_ns = sat_add t.off_cpu_ns s.weight_ns;
  }
]

-- The stack of a sample that counts: what lies below the queried function is added.
unfoldable pub count_frames : Profile → Query → Totals → Sample → List Frame → Totals
count_frames p q t s frames =
    elim (frames_from (is_start_frame q.function_id (selected_name p q.function_id)) frames) [
      | none ↦ t
      | some tail ↦ count_sample t tail s
    ]

-- The body of the loop; `ids` are the selected ids.
unfoldable pub add_sample : Profile → Query → List ℕ → Totals → Sample → Answer Totals
add_sample p q ids t s =
    if not (contains s.invocation_id ids) || not (includes q.metric s.state) then ok t else do
      frames ← or_fail (stack_of p.stacks s.stack_id) (refused (unknown_stack s.stack_id))
      ok (count_frames p q t s frames)

unfoldable pub add_samples : Profile → Query → List ℕ → Totals → List Sample → Answer Totals
add_samples p q ids t [] = ok t
add_samples p q ids t (s ∷ ss) = do t' ← add_sample p q ids t s; add_samples p q ids t' ss

-- `iter().min()` and `iter().max()`.
abbrev pub min_of : List ℕ → Option ℕ
min_of [] = none
min_of (x ∷ xs) = elim (min_of xs) [ none ↦ some x | some y ↦ some (if leb x y then x else y) ]

abbrev pub max_of : List ℕ → Option ℕ
max_of [] = none
max_of (x ∷ xs) = elim (max_of xs) [ none ↦ some x | some y ↦ some (if leb x y then y else x) ]

pub record QueryResult (F64 : Type 0) : Type 0 where
  pub selected_invocation_ids : List ℕ
  pub available_invocation_count : ℕ
  pub latency_min_ns : Option ℕ
  pub latency_max_ns : Option ℕ
  pub percentile_low_value_ns : Option F64
  pub percentile_high_value_ns : Option F64
  pub sampled_cpu_ns : ℕ
  pub off_cpu_ns : ℕ
  pub root : FlameNode

unfoldable pub root_of : List ℕ → TreeBuilder → FlameNode
root_of [] tree = empty
root_of (id ∷ ids) tree = finish tree (codes "root")

-- The result, from the two percentile values.
abbrev pub result_of :
    (F64 : Type 0)
    → (sorted selected : List Invocation) → Totals
    → (low high : Option F64) → QueryResult F64
result_of F64 sorted selected totals low high = record {
  selected_invocation_ids = map (λ i. i.id) selected;
  available_invocation_count = length sorted;
  latency_min_ns = min_of (map duration_ns selected);
  latency_max_ns = max_of (map duration_ns selected);
  percentile_low_value_ns = low;
  percentile_high_value_ns = high;
  sampled_cpu_ns = totals.sampled_cpu_ns;
  off_cpu_ns = totals.off_cpu_ns;
  root = root_of (map (λ i. i.id) selected) totals.tree;
}

-- The last part of `execute_query`.
unfoldable pub report :
    (fl : Float)
    → Query
    → (sorted selected : List Invocation) → Totals
    → Answer (QueryResult fl.F64)
report fl q sorted selected totals = do
  let durations = map duration_ns sorted
  low ← percentile_r7 fl durations (fl.of_usize q.percentile.low)
  high ← percentile_r7 fl durations (fl.of_usize q.percentile.high)
  ok (result_of fl.F64 sorted selected totals low high)

-- Its middle part: the loop over the samples.
unfoldable pub measure :
    (fl : Float)
    → Profile
    → Query
    → (sorted selected : List Invocation) → Answer (QueryResult fl.F64)
measure fl p q sorted selected = do
  totals ← add_samples p q (map (λ i. i.id) selected) no_totals p.samples
  report fl q sorted selected totals

unfoldable pub execute_query : (fl : Float) → Profile → Query → Answer (QueryResult fl.F64)
execute_query fl p q = do
  validate_percentile q.percentile
  validate_time q.time
  let sorted = candidates p q
  selected ← slice_range sorted (rank_bounds (length sorted) q.percentile)
  measure fl p q sorted selected
