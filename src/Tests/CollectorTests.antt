-- ===== src/Tests/CollectorTests.antt =====
-- The unit tests of crates/slice-collector/src/lib.rs at their own profile.
use slice.Base.{ℕ, ◌≡◌, refl, true, false, none, some, List, [], ◌∷◌, map, any, length, ok}
use slice.Collector.Finish.{
  finish, finish_sources, invalidate_all, emit_all, emit, emit_known, emit_samples, emit_sample,
  close_active,
}
use native.Mathlib.Decide.{ℕ_discrete}
use slice.Collector.Push.{
  push, push_all, local_entry, local_return, local_sample, local_violation, conclude, displace,
}
use slice.Collector.Source.{source_entry, source_return, source_sample, enter, leave}
use slice.Collector.Stacks.{append_sample, intern, id_of, frames_discrete}
use slice.Collector.{CollectorEvent, entry, return, violation, sample, State, default}
use slice.Core.Profile.{Profile, Frame, Function, on_cpu, off_cpu}
use slice.Core.Validate.{
  validate, unique_ids, check_invocation, check_parent, check_ancestry, ancestry_repeats,
  check_frame, check_sample, check_sample_in, check_quality,
}
use slice.Data.Sort.{sort}
use slice.Data.Text.{Text, codes}
use slice.Ebpf.Replay.{no_quality}
use slice.Tests.Captures.{in_order}

abbrev profile : Profile
profile = record {
  format_version = 1;
  metadata = record {
    captured_at_unix_ns = 0;
    command = [];
    kernel_release = codes "test";
    sample_period_ns = 1;
  };
  functions = [];
  threads = record { tid = 42; name = none } ∷ [];
  invocations = [];
  stacks = [];
  samples = [];
  quality = no_quality;
}

abbrev labelled : (function_id : ℕ) (label : Text) → Frame
labelled function_id label = record {
  function_id = some function_id;
  label = label;
  module_path = none;
  address = none;
}

abbrev frames : List Frame
frames = labelled 1 (codes "work") ∷ labelled 2 (codes "culprit") ∷ []

abbrev after : List CollectorEvent → State
after events = push_all (default, profile) events

abbrev finished : State → (end_ns : ℕ) → Profile
finished s end_ns = finish in_order in_order s end_ns

abbrev one_thread_and_one_stack : State
one_thread_and_one_stack = after (
    entry none 1 42 10
    ∷ sample none 42 12 0 on_cpu 2 frames
    ∷ sample none 42 14 0 on_cpu 2 frames
    ∷ return none 1 42 20
    ∷ [])

correlates_one_thread :
    let p = one_thread_and_one_stack.1 in
    (length p.invocations ≡ 1)
    × (length p.stacks ≡ 1)
    × (length p.samples ≡ 2)
    × (map (λ i. i.valid) p.invocations ≡ true ∷ [])
unfolding push_all push append_sample intern id_of frames_discrete local_return conclude
    local_sample local_entry ℕ_discrete displace local_violation
correlates_one_thread = (refl, refl, refl, refl)

abbrev nested_and_unfinished : Profile
nested_and_unfinished = finished (after (entry none 1 42 10 ∷ entry none 1 42 11 ∷ [])) 20

nested_is_invalid :
    (nested_and_unfinished.quality.stack_mismatches ≡ 1)
    × (nested_and_unfinished.quality.incomplete_invocations ≡ 2)
    × (any (λ i. i.complete) nested_and_unfinished.invocations ≡ false)
unfolding push_all push finish finish_sources close_active sort invalidate_all emit_all local_entry
    displace
nested_is_invalid = (refl, refl, refl)

abbrev violated : Profile
violated =
    (after (
      entry none 1 42 10
      ∷ violation 42 12
      ∷ sample none 42 14 0 off_cpu 9 frames
      ∷ return none 1 42 20
      ∷ [])).1

violation_invalidates :
    (map (λ i. i.valid) violated.invocations ≡ false ∷ [])
    × (violated.samples ≡ [])
    × (violated.quality.suspected_async_violations ≡ 1)
unfolding push_all push append_sample intern id_of frames_discrete local_return conclude
    local_sample local_entry ℕ_discrete displace local_violation
violation_invalidates = (refl, refl, refl)

-- The sample of the first invocation is delivered after the entry of the second.
abbrev late_sample : Profile
late_sample =
    finished
      (after (
        entry (some 101) 1 42 10
        ∷ return (some 101) 1 42 20
        ∷ entry (some 102) 1 42 30
        ∷ sample (some 101) 42 15 0 off_cpu 5 frames
        ∷ return (some 102) 1 42 40
        ∷ []))
      50

late_sample_kept :
    (map (λ s. s.invocation_id) late_sample.samples ≡ 101 ∷ [])
    × (map (λ i. i.valid) late_sample.invocations ≡ true ∷ true ∷ [])
unfolding push_all push source_entry source_return source_sample enter leave finish finish_sources
    close_active sort invalidate_all emit_all emit emit_known emit_samples emit_sample append_sample
    intern id_of frames_discrete
late_sample_kept = (refl, refl)

abbrev fixture : Function
fixture = record {
  id = 1;
  module_path = codes "fixture";
  module_build_id = none;
  address = 1;
  name = codes "work";
  demangled_name = codes "work()";
  source_file = none;
  line = none;
}

abbrev out_of_bounds : Profile
out_of_bounds =
    finished
      (push_all (default, record profile { functions = fixture ∷ [] })
        (entry (some 103) 1 42 10
          ∷ sample (some 103) 42 25 0 off_cpu 5 frames
          ∷ return (some 103) 1 42 20
          ∷ []))
      30

out_of_bounds_dropped :
    (out_of_bounds.samples ≡ [])
    × (out_of_bounds.quality.stack_mismatches ≡ 1)
    × (validate out_of_bounds ≡ ok tt)
unfolding push_all push source_entry source_return source_sample enter leave finish finish_sources
    close_active sort invalidate_all emit_all emit emit_known emit_samples emit_sample append_sample
    intern id_of frames_discrete validate unique_ids check_invocation check_parent check_ancestry
    ancestry_repeats check_frame check_sample check_sample_in check_quality
out_of_bounds_dropped = (refl, refl, refl)
