-- ===== src/Tests/CoreTests.antt =====
-- The unit tests of crates/slice-core/src/lib.rs at their own profile.
use slice.Base.{ℕ, ◌≡◌, refl, true, Option, none, some, List, [], ◌∷◌, map, Result, ok, err, ◌>>=◌}
use slice.Core.Float.{Failure}
use slice.Core.Profile.{
  Profile, Frame, Stack, Sample, Invocation, Metric, on_cpu, off_cpu, ExecutionState,
}
use slice.Core.Query.{
  Query, QueryError, QueryResult, execute_query, validate_percentile, validate_time, candidates,
  slice_range, measure, add_samples, add_sample, stack_of, count_frames, frames_from, selected_name,
  count_sample, report, root_of,
}
use slice.Core.Rank.{PercentileRange, all_percentiles, rank_bounds}
use slice.Core.Float.{percentile_r7}
use slice.Core.Tree.{FlameNode, flame_node, nil, cons, insert, entry, finish}
use slice.Core.Validate.{
  validate, unique_ids, check_invocation, check_parent, check_ancestry, ancestry_repeats,
  check_frame, check_sample, check_sample_in, check_quality, unknown_stack,
  cyclic_invocation_parent,
}
use slice.Data.Sort.{sort}
use slice.Data.Text.{Text, codes}
use slice.Tests.Data.{hundredths}

abbrev frame : Text → Frame
frame label = record {
  function_id = none;
  label = label;
  module_path = some (codes "test-module");
  address = none;
}

abbrev query : PercentileRange → Query
query percentile = record {
  function_id = 1;
  threads = none;
  time = none;
  percentile = percentile;
  metric = Metric.wall;
}

abbrev invocation : (id tid start_ns end_ns : ℕ) → Invocation
invocation id tid start_ns end_ns = record {
  id = id;
  function_id = 1;
  parent_id = none;
  tid = tid;
  start_ns = start_ns;
  end_ns = end_ns;
  complete = true;
  valid = true;
}

abbrev sample :
    (timestamp_ns invocation_id stack_id tid cpu : ℕ) → ExecutionState → (weight_ns : ℕ) → Sample
sample timestamp_ns invocation_id stack_id tid cpu state weight_ns = record {
  timestamp_ns = timestamp_ns;
  invocation_id = invocation_id;
  stack_id = stack_id;
  tid = tid;
  cpu = cpu;
  state = state;
  weight_ns = weight_ns;
}

abbrev stacks : List Stack
stacks =
    record { id = 10; frames = frame (codes "Test::work()") ∷ frame (codes "child_a()") ∷ [] }
    ∷ record { id = 11; frames = frame (codes "Test::work()") ∷ frame (codes "child_b()") ∷ [] }
    ∷ []

abbrev profile : Profile
profile = record {
  format_version = 1;
  metadata = record {
    captured_at_unix_ns = 1;
    command = codes "test-program" ∷ [];
    kernel_release = codes "test-kernel";
    sample_period_ns = 1_000_000;
  };
  functions =
      record {
        id = 1;
        module_path = codes "test-module";
        module_build_id = some (codes "test-build");
        address = 0x1000;
        name = codes "work";
        demangled_name = codes "Test::work()";
        source_file = none;
        line = none;
      }
      ∷ [];
  threads =
      record { tid = 10; name = some (codes "worker-a") }
      ∷ record { tid = 11; name = some (codes "worker-b") }
      ∷ [];
  invocations =
      invocation 1 10 0 10_000_000
      ∷ invocation 2 10 20_000_000 40_000_000
      ∷ invocation 3 11 50_000_000 80_000_000
      ∷ [];
  stacks = stacks;
  samples =
      sample 5_000_000 1 10 10 0 on_cpu 10_000_000
      ∷ sample 25_000_000 2 11 10 0 on_cpu 13_000_000
      ∷ sample 30_000_000 2 11 10 0 off_cpu 7_000_000
      ∷ sample 65_000_000 3 11 11 1 on_cpu 30_000_000
      ∷ [];
  quality = record {
    events_generated = 6;
    events_dropped = 0;
    samples_generated = 4;
    samples_dropped = 0;
    complete_invocations = 3;
    incomplete_invocations = 0;
    stack_mismatches = 0;
    suspected_async_violations = 0;
  };
}

abbrev Outcome : Type 0 → Type 0
Outcome A = Result (Failure QueryError) A

abbrev run : Profile → Query → Outcome (QueryResult ℕ)
run p q = execute_query hundredths p q

abbrev add_caller : Stack → Stack
add_caller s = record s {
  frames =
      record {
        function_id = none;
        label = codes "caller_above_selected_function()";
        module_path = none;
        address = none;
      }
      ∷ s.frames;
}

abbrev child_names : FlameNode → List Text
child_names (flame_node name value nil) = []
child_names (flame_node name value (cons (flame_node child v grandchildren) rest)) = child ∷ []

abbrev query_flame_root_starts_at_selected_function : Outcome (List Text)
query_flame_root_starts_at_selected_function =
    run (record profile { stacks = map add_caller profile.stacks }) (query all_percentiles) >>= λ r.
    ok (child_names r.root)

abbrev percentile_ranges : Outcome (List ℕ × Option ℕ × Option ℕ)
percentile_ranges = run profile (query (record { low = 33; high = 100 })) >>= λ r.
    ok (r.selected_invocation_ids, r.percentile_low_value_ns, r.percentile_high_value_ns)

abbrev filters_precede_percentiles : Outcome (ℕ × List ℕ × ℕ)
filters_precede_percentiles =
    run profile (record (query (record { low = 50; high = 100 })) {
      threads = some (10 ∷ []);
      time = some (record { from_ns = 0; to_ns = 45_000_000 });
      metric = Metric.cpu;
    })
    >>= λ r. ok (r.available_invocation_count, r.selected_invocation_ids, r.off_cpu_ns)

abbrev value_of : FlameNode → ℕ
value_of (flame_node name value children) = value

-- The values of the root, and the two sums.
abbrev weights_by : Metric → Outcome (ℕ × ℕ × ℕ)
weights_by metric = run profile (record (query all_percentiles) { metric = metric }) >>= λ r.
    ok (value_of r.root, r.sampled_cpu_ns, r.off_cpu_ns)

starts_at_selected_function :
    query_flame_root_starts_at_selected_function ≡ ok (codes "Test::work()" ∷ [])
unfolding execute_query validate_percentile validate_time candidates sort slice_range rank_bounds
    measure add_samples add_sample stack_of count_frames frames_from selected_name count_sample
    insert entry report root_of finish percentile_r7
starts_at_selected_function = refl

-- In hundredths.
ranges_are_ordinal : percentile_ranges ≡ ok (2 ∷ 3 ∷ [], some 1_660_000_000, some 3_000_000_000)
unfolding execute_query validate_percentile validate_time candidates sort slice_range rank_bounds
    measure add_samples add_sample stack_of count_frames frames_from selected_name count_sample
    insert entry report root_of finish percentile_r7
ranges_are_ordinal = refl

filters_come_first : filters_precede_percentiles ≡ ok (2, 2 ∷ [], 0)
unfolding execute_query validate_percentile validate_time candidates sort slice_range rank_bounds
    measure add_samples add_sample stack_of count_frames frames_from selected_name count_sample
    insert entry report root_of finish percentile_r7
filters_come_first = refl

metrics_weigh :
    (weights_by Metric.cpu ≡ ok (53_000_000, 53_000_000, 0))
    × (weights_by Metric.off_cpu ≡ ok (7_000_000, 0, 7_000_000))
    × (weights_by Metric.wall ≡ ok (60_000_000, 53_000_000, 7_000_000))
unfolding execute_query validate_percentile validate_time candidates sort slice_range rank_bounds
    measure add_samples add_sample stack_of count_frames frames_from selected_name count_sample
    insert entry report root_of finish percentile_r7
metrics_weigh = (refl, refl, refl)

-- The first sample with another stack.
abbrev with_first_stack : ℕ → List Sample → List Sample
with_first_stack stack_id [] = []
with_first_stack stack_id (s ∷ ss) = record s { stack_id = stack_id } ∷ ss

abbrev unknown_reference : Profile
unknown_reference = record profile { samples = with_first_stack 999 profile.samples }

rejects_unknown_reference : validate unknown_reference ≡ err (unknown_stack 999)
unfolding validate unique_ids check_invocation check_parent check_ancestry ancestry_repeats
    check_frame check_sample check_sample_in check_quality
rejects_unknown_reference = refl

-- The first two invocations are each other's parent.
abbrev with_cycle : List Invocation → List Invocation
with_cycle (i ∷ j ∷ is) =
    record i { parent_id = some j.id } ∷ record j { parent_id = some i.id } ∷ is
with_cycle is = is

abbrev cyclic : Profile
cyclic = record profile { invocations = with_cycle profile.invocations }

rejects_cycle : validate cyclic ≡ err (cyclic_invocation_parent 1)
unfolding validate unique_ids check_invocation check_parent check_ancestry ancestry_repeats
    check_frame check_sample check_sample_in check_quality
rejects_cycle = refl

profile_is_valid : validate profile ≡ ok tt
unfolding validate unique_ids check_invocation check_parent check_ancestry ancestry_repeats
    check_frame check_sample check_sample_in check_quality
profile_is_valid = refl
