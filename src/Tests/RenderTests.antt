-- ===== src/Tests/RenderTests.antt =====
-- The tests of crates/slice-render/src/lib.rs that do not look into the constant text of the page.
use slice.Base.{ℕ, ◌≡◌, refl, true, none, some, [], ◌∷◌, Result, ok, err}
use slice.Core.Float.{Failure, refused}
use slice.Core.Profile.{Profile, Metric, on_cpu}
use slice.Core.Query.{Query}
use slice.Core.Rank.{PercentileRange}
use slice.Core.Validate.{
  validate, unique_ids, check_invocation, check_parent, check_ancestry, ancestry_repeats,
  check_frame, check_sample, check_sample_in, check_quality, unknown_stack,
}
use slice.Data.Text.{Text, codes}
use slice.Ebpf.Replay.{no_quality}
use slice.Render.{Json, Template, RenderError, invalid_profile, render_html}
use slice.Tests.Data.{hundredths}

abbrev handler : Text
handler = codes "BimodalFixture::handle_request(unsigned long)"

-- The profile of the tests, with a sample that names this stack.
abbrev profile : (stack_id : ℕ) → Profile
profile stack_id = record {
  format_version = 1;
  metadata = record {
    captured_at_unix_ns = 1;
    command = codes "test-program" ∷ [];
    kernel_release = codes "test-kernel";
    sample_period_ns = 1_000_000;
  };
  functions =
      record {
        id = 1;
        module_path = codes "test-module";
        module_build_id = some (codes "test-build");
        address = 0x1000;
        name = codes "work";
        demangled_name = handler;
        source_file = none;
        line = none;
      }
      ∷ [];
  threads = record { tid = 10; name = some (codes "worker") } ∷ [];
  invocations =
      record {
        id = 1;
        function_id = 1;
        parent_id = none;
        tid = 10;
        start_ns = 0;
        end_ns = 20_000_000;
        complete = true;
        valid = true;
      }
      ∷ [];
  stacks =
      record {
        id = 1;
        frames =
            record {
              function_id = some 1;
              label = handler;
              module_path = some (codes "test-module");
              address = some 0x1000;
            }
            ∷ record {
              function_id = none;
              label = codes "BimodalFixture::slow_path()";
              module_path = some (codes "test-module");
              address = none;
            }
            ∷ [];
      }
      ∷ [];
  samples =
      record {
        timestamp_ns = 10_000_000;
        invocation_id = 1;
        stack_id = stack_id;
        tid = 10;
        cpu = 0;
        state = on_cpu;
        weight_ns = 20_000_000;
      }
      ∷ [];
  quality = record no_quality {
    events_generated = 2;
    samples_generated = 1;
    complete_invocations = 1;
  };
}

abbrev query : PercentileRange → Query
query percentile = record {
  function_id = 1;
  threads = none;
  time = none;
  percentile = percentile;
  metric = Metric.wall;
}

profile_is_valid : validate (profile 1) ≡ ok tt
unfolding validate unique_ids check_invocation check_parent check_ancestry ancestry_repeats
    check_frame check_sample check_sample_in check_quality
profile_is_valid = refl

-- Whatever the libraries write, a profile that is not valid has no page.
abbrev rejected : Json → Template → Result (Failure RenderError) Text
rejected json t =
    render_html hundredths json t (profile 999) (query (record { low = 95; high = 100 }))

rejects_invalid_profiles :
    (json : Json) (t : Template)
    → rejected json t ≡ err (refused (invalid_profile (unknown_stack 999)))
unfolding render_html validate unique_ids check_invocation check_parent check_ancestry
    ancestry_repeats check_frame check_sample check_sample_in check_quality
rejects_invalid_profiles json t = refl
