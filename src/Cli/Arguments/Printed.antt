-- ===== src/Cli/Arguments/Printed.antt =====
-- Every query can be written as arguments of `slice view`, which the parsers read back.
use slice.Base.{
  ℕ, ◌+◌, ◌-◌, ◌*◌, ◌%◌, ◌^◌, ◌<◌, ◌≤◌, ◌≡◌, ◌≢◌, refl, ◌∙◌, sym, ap, false, Option, none, some,
  List, [], ◌∷◌, ◌++◌, All, All-map, All-append, ◌==◌, lt→ltb, ok, arith,
}
use slice.Cli.Arguments.{
  parse_parts, parse_threads, in_order, parse_percentile, parse_with, parse_duration_ns, forward,
  parse_time,
}
use slice.Cli.View.{Arguments, transpose, query_of}
use slice.Core.Envelope.{capture_bounds}
use slice.Core.Profile.{Profile, Function, TimeRange}
use slice.Core.Query.{Query}
use slice.Core.Rank.{PercentileRange, is_invalid}
use slice.Data.Decimal.{IsDigits, decimal, decimal-IsDigits, parse_unsigned-decimal, trim-IsDigits}
use slice.Data.Numerals.{is_digit, trim, split_once, split, strip_suffix, parse_unsigned}
use slice.Data.Text.{Text, codes}
use slice.Data.Words.{u32_max, u64_max}

-- A character that is no digit does not stand among digits.
Lacks : ℕ → Text → Type 0
Lacks at = All λ c. (c == at) ≡ false

IsDigits-Lacks : (at : ℕ) → is_digit at ≡ false → (s : Text) → IsDigits s → Lacks at s
unfolding Lacks
IsDigits-Lacks at h s digits = All-map _ _ (λ c digit. ground (arith, h, digit)) s digits

split_once-append : (at : ℕ) (s t : Text) → Lacks at s → split_once at (s ++ at ∷ t) ≡ some (s, t)
unfolding split_once Lacks
split_once-append at [] t h = ground arith
split_once-append at (c ∷ s) t h = rw (h.0, split_once-append at s t h.1) refl

split-append : (at : ℕ) (s t : Text) → Lacks at s → split at (s ++ at ∷ t) ≡ s ∷ split at t
unfolding split Lacks
split-append at [] t h = ground arith
split-append at (c ∷ s) t h = rw (h.0, split-append at s t h.1) refl

split-Lacks : (at : ℕ) (s : Text) → Lacks at s → split at s ≡ s ∷ []
unfolding split Lacks
split-Lacks at [] h = refl
split-Lacks at (c ∷ s) h = rw (h.0, split-Lacks at s h.1) refl

strip_suffix-append : (s : Text) → IsDigits s → strip_suffix (codes "ns") (s ++ codes "ns") ≡ some s
unfolding strip_suffix
strip_suffix-append [] h = refl
strip_suffix-append (c ∷ s) h =
    let other : (110 == c) ≡ false = ground (arith, h.0) in
    rw (other, strip_suffix-append s h.1) refl

-- A duration in nanoseconds.
abbrev pub printed_duration : ℕ → Text
printed_duration n = decimal n ++ codes "ns"

parse_with-found :
    (suffix : Text) (multiplier : ℕ) (us : List (Text × ℕ)) (value number : Text) (n : ℕ)
    → strip_suffix suffix value ≡ some number
    → parse_unsigned u64_max (trim number) ≡ some n
    → parse_with ((suffix, multiplier) ∷ us) value ≡ ok (n * multiplier % 2 ^ 64)
unfolding parse_with
parse_with-found suffix multiplier us value number n stripped parsed =
    rw (stripped, parsed, parse_with) refl

parse_duration_ns-printed_duration :
    (n : ℕ) → n ≤ u64_max → parse_duration_ns (printed_duration n) ≡ ok n
unfolding parse_duration_ns
parse_duration_ns-printed_duration n h =
    let whole : n * 1 % 2 ^ 64 ≡ n = omega arith in
    parse_with-found (codes "ns") 1 _ (printed_duration n) (decimal n) n
      (strip_suffix-append (decimal n) (decimal-IsDigits n))
      (ap (parse_unsigned u64_max) (trim-IsDigits (decimal n) (decimal-IsDigits n))
        ∙ parse_unsigned-decimal u64_max n h h)
    ∙ ap ok whole

abbrev pub printed_threads : ℕ → List ℕ → Text
printed_threads tid [] = decimal tid
printed_threads tid (next ∷ tids) = decimal tid ++ 44 ∷ printed_threads next tids

parse_tid : (tid : ℕ) → tid ≤ u32_max → parse_unsigned u32_max (trim (decimal tid)) ≡ some tid
parse_tid tid h =
    rw (trim-IsDigits (decimal tid) (decimal-IsDigits tid))
      (parse_unsigned-decimal u32_max tid h (omega arith))

parse_threads-printed_threads :
    (tid : ℕ) (tids : List ℕ)
    → tid ≤ u32_max
    → All (λ t. t ≤ u32_max) tids
    → parse_threads (printed_threads tid tids) ≡ ok (tid ∷ tids)
unfolding parse_threads parse_parts
parse_threads-printed_threads tid [] h hs =
    rw
      (
        split-Lacks 44 (decimal tid) (IsDigits-Lacks 44 refl _ (decimal-IsDigits tid)),
        parse_tid tid h,
      )
      refl
parse_threads-printed_threads tid (next ∷ tids) h hs =
    let first =
      split-append 44 (decimal tid) (printed_threads next tids)
        (IsDigits-Lacks 44 refl _ (decimal-IsDigits tid)) in
    rw (first, parse_tid tid h)
      (let rest : parse_parts (split 44 (printed_threads next tids)) ≡ ok (next ∷ tids) =
          parse_threads-printed_threads next tids hs.0 hs.1 in
        rw rest refl)

abbrev pub printed_percentile : PercentileRange → Text
printed_percentile r = decimal r.low ++ 58 ∷ decimal r.high

parse_percentile-printed_percentile :
    (r : PercentileRange) → is_invalid r ≡ false → parse_percentile (printed_percentile r) ≡ ok r
unfolding parse_percentile in_order
parse_percentile-printed_percentile r h =
    rw
      (
        split_once-append 58 (decimal r.low) (decimal r.high)
            (IsDigits-Lacks 58 refl _ (decimal-IsDigits r.low)),
        parse_unsigned-decimal 255 r.low (ground arith) (ground arith),
        parse_unsigned-decimal 255 r.high (ground arith) (ground arith),
        h,
      )
      refl

-- A range of times as the distances from the start of the capture.
abbrev pub printed_time : (start : ℕ) → TimeRange → Text
printed_time start r =
    printed_duration (r.from_ns - start) ++ 58 ∷ printed_duration (r.to_ns - start)

sum_of_parts : (start at : ℕ) → start ≤ at → at ≤ u64_max → (start + (at - start)) % 2 ^ 64 ≡ at
sum_of_parts start at h k = omega arith

printed_duration-Lacks : (n : ℕ) → Lacks 58 (printed_duration n)
unfolding Lacks
printed_duration-Lacks n =
    All-append _ (decimal n) (codes "ns") (IsDigits-Lacks 58 refl (decimal n) (decimal-IsDigits n))
      (refl, (refl, tt))

parse_time-printed_time :
    (bounds r : TimeRange)
    → bounds.from_ns ≤ r.from_ns
    → r.from_ns < r.to_ns
    → r.to_ns ≤ u64_max
    → parse_time (printed_time bounds.from_ns r) (some bounds) ≡ ok r
unfolding parse_time forward
parse_time-printed_time bounds r h ordered small =
    let low = r.from_ns - bounds.from_ns in
    let high = r.to_ns - bounds.from_ns in
    rw
      (
        split_once-append 58 (printed_duration low) (printed_duration high)
            (printed_duration-Lacks low),
        parse_duration_ns-printed_duration low (omega arith),
        parse_duration_ns-printed_duration high (omega arith),
        sum_of_parts bounds.from_ns r.from_ns h (omega arith),
        sum_of_parts bounds.from_ns r.to_ns (omega arith) small,
        lt→ltb r.from_ns r.to_ns ordered,
      )
      refl

-- What the options of `slice view` can ask for, in a capture with these bounds.
pub record IsPrintable (bounds : TimeRange) (q : Query) : Type 0 where
  pub threads :
      (tids : List ℕ) → q.threads ≡ some tids → (tids ≢ []) × All (λ tid. tid ≤ u32_max) tids
  pub time :
      (r : TimeRange)
      → q.time ≡ some r
      → (bounds.from_ns ≤ r.from_ns) × (r.from_ns < r.to_ns) × (r.to_ns ≤ u64_max)
  pub percentile : is_invalid q.percentile ≡ false

abbrev thread_option : Option (List ℕ) → Option Text
thread_option none = none
thread_option (some []) = some []
thread_option (some (tid ∷ tids)) = some (printed_threads tid tids)

abbrev time_option : (start : ℕ) → Option TimeRange → Option Text
time_option start none = none
time_option start (some r) = some (printed_time start r)

-- The options for a query.
abbrev pub printed : (start : ℕ) → Query → Arguments
printed start q = record {
  threads = thread_option q.threads;
  time = time_option start q.time;
  percentile = printed_percentile q.percentile;
  metric = q.metric;
}

read_threads :
    (o : Option (List ℕ))
    → ((tids : List ℕ) → o ≡ some tids → (tids ≢ []) × All (λ tid. tid ≤ u32_max) tids)
    → transpose parse_threads (thread_option o) ≡ ok o
read_threads none h = refl
read_threads (some []) h = absurd ((h [] refl).0 refl)
read_threads (some (tid ∷ tids)) h =
    let fits = (h (tid ∷ tids) refl).1 in
    rw (parse_threads-printed_threads tid tids fits.0 fits.1) refl

read_time :
    (bounds : TimeRange) (o : Option TimeRange)
    → ((r : TimeRange)
        → o ≡ some r
        → (bounds.from_ns ≤ r.from_ns) × (r.from_ns < r.to_ns) × (r.to_ns ≤ u64_max))
    → transpose (λ value. parse_time value (some bounds)) (time_option bounds.from_ns o) ≡ ok o
read_time bounds none h = refl
read_time bounds (some r) h =
    let (begins, ordered, small) = h r refl in
    rw (parse_time-printed_time bounds r begins ordered small) refl

-- The options that are written for a query of a function, about threads with ids of 32 bits and at
-- least one, times from the start of the capture on that are in order and fit 64 bits, and a valid
-- percentile range, are read back as this query.
pub query_of-printed :
    (p : Profile) (function : Function) (bounds : TimeRange)
    → capture_bounds p.invocations ≡ some bounds
    → (q : Query) → q.function_id ≡ function.id
    → IsPrintable bounds q
    → query_of p (printed bounds.from_ns q) function ≡ ok q
unfolding query_of
query_of-printed p function bounds spans q same fits =
    rw
      (
        read_threads q.threads fits.threads,
        spans,
        read_time bounds q.time fits.time,
        parse_percentile-printed_percentile q.percentile fits.percentile,
        sym same,
      )
      refl
