-- ===== src/Cli/Arguments.antt =====
-- crates/slice-cli/src/main.rs: `CliMetric`, `parse_threads`, `parse_percentile`, `parse_time` and
-- `parse_duration_ns`. The sums and products of `u64` wrap around, as in a release build.
pub mod Laws
pub mod Printed
use slice.Base.{
  ℕ, ◌+◌, ◌*◌, ◌^◌, ◌%◌, Bool, not, Option, none, some, List, [], ◌∷◌, ltb, Result, ok, err, guard,
  or_fail, ◌>>=◌, ◌>>◌,
}
use slice.Core.Profile.{Metric, TimeRange}
use slice.Core.Rank.{PercentileRange, is_invalid}
use slice.Data.Numerals.{trim, split_once, split, strip_suffix, parse_unsigned}
use slice.Data.Text.{Text, codes}
use slice.Data.Words.{u32_max, u64_max}

pub data CliMetric : Type 0 where
  wall cpu off_cpu : CliMetric

-- `From<CliMetric> for Metric`.
abbrev pub from_cli : CliMetric → Metric
from_cli CliMetric.wall = Metric.wall
from_cli CliMetric.cpu = Metric.cpu
from_cli CliMetric.off_cpu = Metric.off_cpu

-- The messages of the argument parsers.
pub data ArgumentError : Type 0 where
  invalid_thread_id : ArgumentError
  percentile_without_colon : ArgumentError
  invalid_percentile_bound : ArgumentError
  percentile_out_of_order : ArgumentError
  no_invocations : ArgumentError
  time_without_colon : ArgumentError
  time_out_of_order : ArgumentError
  invalid_number : ArgumentError
  unknown_unit : ArgumentError

-- Every part parsed, up to the first that fails.
unfoldable pub parse_parts : List Text → Result ArgumentError (List ℕ)
parse_parts [] = ok []
parse_parts (part ∷ parts) = do
  tid ← or_fail (parse_unsigned u32_max (trim part)) invalid_thread_id
  tids ← parse_parts parts
  ok (tid ∷ tids)

-- The set of thread ids, as a list: only membership is asked of it.
unfoldable pub parse_threads : Text → Result ArgumentError (List ℕ)
parse_threads value = parse_parts (split 44 value)

-- The test at the end of `parse_percentile`.
unfoldable pub in_order : PercentileRange → Result ArgumentError PercentileRange
in_order range = guard (not (is_invalid range)) percentile_out_of_order >> ok range

unfoldable pub parse_percentile : Text → Result ArgumentError PercentileRange
parse_percentile value = do
  (low, high) ← or_fail (split_once 58 value) percentile_without_colon
  l ← or_fail (parse_unsigned 255 low) invalid_percentile_bound
  h ← or_fail (parse_unsigned 255 high) invalid_percentile_bound
  in_order (record { low = l; high = h })

abbrev pub units : List (Text × ℕ)
units =
    (codes "ns", 1)
    ∷ (codes "us", 1_000)
    ∷ (codes "ms", 1_000_000)
    ∷ (codes "s", 1_000_000_000)
    ∷ []

-- The loop over the units.
unfoldable pub parse_with : List (Text × ℕ) → Text → Result ArgumentError ℕ
parse_with [] value = err unknown_unit
parse_with ((suffix, multiplier) ∷ us) value = elim (strip_suffix suffix value) [
  | none ↦ parse_with us value
  | some number ↦ do
    n ← or_fail (parse_unsigned u64_max (trim number)) invalid_number
    ok (n * multiplier % 2 ^ 64)
]

unfoldable pub parse_duration_ns : Text → Result ArgumentError ℕ
parse_duration_ns value = parse_with units value

-- The test at the end of `parse_time`.
unfoldable pub forward : TimeRange → Result ArgumentError TimeRange
forward range = guard (ltb range.from_ns range.to_ns) time_out_of_order >> ok range

unfoldable pub parse_time : Text → Option TimeRange → Result ArgumentError TimeRange
parse_time value none = err no_invocations
parse_time value (some bounds) = do
  (low, high) ← or_fail (split_once 58 value) time_without_colon
  l ← parse_duration_ns low
  h ← parse_duration_ns high
  forward
      (record { from_ns = (bounds.from_ns + l) % 2 ^ 64; to_ns = (bounds.from_ns + h) % 2 ^ 64 })
