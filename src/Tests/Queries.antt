-- ===== src/Tests/Queries.antt =====
-- `execute_query` at the profile with two threads.
use slice.Base.{
  ℕ, ◌+◌, ◌*◌, ◌-◌, ◌≤◌, ◌<◌, ◌≡◌, ◌≢◌, ◌↔◌, refl, none, some, List, [], ◌∷◌, map, length, take,
  drop, ok, err, arith, min,
}
use slice.Core.Float.{panic, refused, percentile_r7}
use slice.Core.Profile.{Invocation, Metric}
use slice.Core.Query.{
  Query, QueryError, QueryResult, execute_query, validate_percentile, validate_time, candidates,
  slice_range, measure, add_samples, add_sample, stack_of, count_frames, frames_from, selected_name,
  count_sample, report, root_of,
}
use slice.Core.Query.Errors.{refusal, execute_query-refusal}
use slice.Core.Query.Failures.{execute_query_never_panics}
use slice.Core.Query.Meaning.{
  execute_query-IsPopulation, execute_query-flame, execute_query_conserves, execute_query-metric,
}
use slice.Core.Query.Population.{IsPopulation}
use slice.Core.Query.Sums.{weight_of, along}
use slice.Core.Rank.{rank_bounds}
use slice.Core.Rank.Bounds.{rank_bounds_ceil}
use slice.Core.Tree.{flame_node, nil, cons, insert, entry, finish}
use slice.Core.Tree.Order.{flame_at}
use slice.Data.Sort.{sort}
use slice.Data.Text.{codes}
use slice.Data.Words.{sat_add, u64_max}
use slice.Tests.Data.{two_threads, query, hundredths, hundredths-IsScaling}
use slice.Tests.Profiles.{two_threads-IsWellFormed}

-- The result of the query for all invocations by wall time.
abbrev all_by_wall : QueryResult ℕ
all_by_wall = record {
  selected_invocation_ids = 2 ∷ 1 ∷ [];
  available_invocation_count = 2;
  latency_min_ns = some 20;
  latency_max_ns = some 30;
  percentile_low_value_ns = some 2000;
  percentile_high_value_ns = some 3000;
  sampled_cpu_ns = 7;
  off_cpu_ns = 9;
  root = flame_node (codes "root") 16 (
      cons
        (flame_node (codes "work()") 16
          (cons (flame_node (codes "a") 7 nil) (cons (flame_node (codes "b") 9 nil) nil)))
        nil);
}

all_by_wall_run : execute_query hundredths two_threads (query 0 100 Metric.wall) ≡ ok all_by_wall
unfolding execute_query validate_percentile validate_time candidates sort slice_range rank_bounds
    measure add_samples add_sample stack_of count_frames frames_from selected_name count_sample
    insert entry report root_of finish percentile_r7
all_by_wall_run = refl

-- The slower half, off the processor: the sample of the other invocation does not count.
abbrev tail_off_cpu : QueryResult ℕ
tail_off_cpu = record {
  selected_invocation_ids = 1 ∷ [];
  available_invocation_count = 2;
  latency_min_ns = some 30;
  latency_max_ns = some 30;
  percentile_low_value_ns = some 2500;
  percentile_high_value_ns = some 3000;
  sampled_cpu_ns = 0;
  off_cpu_ns = 0;
  root = flame_node (codes "root") 0 nil;
}

tail_off_cpu_run :
    execute_query hundredths two_threads (query 50 100 Metric.off_cpu) ≡ ok tail_off_cpu
unfolding execute_query validate_percentile validate_time candidates sort slice_range rank_bounds
    measure add_samples add_sample stack_of count_frames frames_from selected_name count_sample
    insert entry report root_of finish percentile_r7
tail_off_cpu_run = refl

execute_query_never_panics_example :
    execute_query hundredths two_threads (query 100 99 Metric.cpu) ≢ err panic
execute_query_never_panics_example =
    execute_query_never_panics hundredths hundredths-IsScaling two_threads (query 100 99 Metric.cpu)
      (omega arith)

execute_query-IsPopulation_example :
    (cs : List Invocation) × IsPopulation two_threads (query 50 100 Metric.off_cpu) cs
    × (2 ≡ length cs)
    × (let (start, end) = rank_bounds (length cs) (query 50 100 Metric.off_cpu).percentile in
        1 ∷ [] ≡ map (λ i. i.id) (take (end - start) (drop start cs)))
execute_query-IsPopulation_example =
    execute_query-IsPopulation hundredths two_threads (query 50 100 Metric.off_cpu) tail_off_cpu
      tail_off_cpu_run

execute_query-flame_example :
    flame_at (codes "work()" ∷ codes "b" ∷ []) all_by_wall.root
    ≡ min
        (weight_of
          (along (codes "work()" ∷ codes "b" ∷ []))
          two_threads
          (query 0 100 Metric.wall)
          (2 ∷ 1 ∷ [])
          two_threads.samples)
        u64_max
execute_query-flame_example =
    execute_query-flame hundredths two_threads (query 0 100 Metric.wall) all_by_wall all_by_wall_run
      (codes "work()" ∷ codes "b" ∷ [])

execute_query_conserves_example : flame_at [] all_by_wall.root ≡ sat_add 7 9
execute_query_conserves_example =
    execute_query_conserves hundredths two_threads (query 0 100 Metric.wall) all_by_wall
      all_by_wall_run

execute_query-metric_example :
    (Metric.off_cpu ≡ Metric.cpu → tail_off_cpu.off_cpu_ns ≡ 0)
    × (Metric.off_cpu ≡ Metric.off_cpu → tail_off_cpu.sampled_cpu_ns ≡ 0)
execute_query-metric_example =
    execute_query-metric hundredths two_threads (query 50 100 Metric.off_cpu) tail_off_cpu
      tail_off_cpu_run

rank_bounds_ceil_example :
    let (start, end) = rank_bounds 7 (record { low = 95; high = 100 }) in
    (7 * 95 ≤ 100 * start)
    × (100 * start < 7 * 95 + 100)
    × (7 * 100 ≤ 100 * end)
    × (100 * end < 7 * 100 + 100)
rank_bounds_ceil_example = rank_bounds_ceil 7 (record { low = 95; high = 100 }) refl (omega arith)

-- Both ranges are reversed.
abbrev reversed : Query
reversed = record (query 100 99 Metric.cpu) { time = some (record { from_ns = 5; to_ns = 5 }) }

execute_query-refusal_example :
    ((e : QueryError)
      → (execute_query hundredths two_threads reversed ≡ err (refused e))
        ↔ (refusal reversed ≡ some e))
    × (refusal reversed ≡ none
        → (r : QueryResult ℕ) × (execute_query hundredths two_threads reversed ≡ ok r))
execute_query-refusal_example =
    execute_query-refusal hundredths hundredths-IsScaling two_threads reversed (omega arith)
      two_threads-IsWellFormed
