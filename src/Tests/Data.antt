-- ===== src/Tests/Data.antt =====
-- A profile with one function on two threads, and its queries.
use slice.Base.{ℕ, ◌+◌, ◌*◌, ◌/◌, ◌-◌, ◌≤◌, true, none, List, [], ◌∷◌, min, max, arith}
use slice.Core.Float.{Float, IsScaling}
use slice.Core.Profile.{Profile, Metadata, Function, Invocation, Frame, on_cpu, off_cpu, Metric}
use slice.Core.Query.{Query}
use slice.Data.Text.{codes}

abbrev pub work : Function
work = record {
  id = 1;
  module_path = codes "service";
  module_build_id = none;
  address = 0x1000;
  name = codes "work";
  demangled_name = codes "work()";
  source_file = none;
  line = none;
}

abbrev pub metadata : Metadata
metadata = record {
  captured_at_unix_ns = 1;
  command = [];
  kernel_release = codes "6.8.0";
  sample_period_ns = 1_001_001;
}

abbrev pub invocation : (id tid start_ns end_ns : ℕ) → Invocation
invocation id tid start_ns end_ns = record {
  id = id;
  function_id = 1;
  parent_id = none;
  tid = tid;
  start_ns = start_ns;
  end_ns = end_ns;
  complete = true;
  valid = true;
}

abbrev frame : List ℕ → Frame
frame label = record { function_id = none; label = label; module_path = none; address = none }

abbrev pub two_threads : Profile
two_threads = record {
  format_version = 1;
  metadata = metadata;
  functions = work ∷ [];
  threads = record { tid = 10; name = none } ∷ record { tid = 11; name = none } ∷ [];
  invocations = invocation 1 10 0 30 ∷ invocation 2 11 20 40 ∷ [];
  stacks =
      record {
        id = 5;
        frames = frame (codes "main") ∷ frame (codes "work()") ∷ frame (codes "a") ∷ [];
      }
      ∷ record { id = 6; frames = frame (codes "work()") ∷ frame (codes "b") ∷ [] }
      ∷ [];
  samples =
      record {
        timestamp_ns = 10;
        invocation_id = 1;
        stack_id = 5;
        tid = 10;
        cpu = 0;
        state = on_cpu;
        weight_ns = 7;
      }
      ∷ record {
        timestamp_ns = 25;
        invocation_id = 2;
        stack_id = 6;
        tid = 11;
        cpu = 1;
        state = off_cpu;
        weight_ns = 9;
      }
      ∷ [];
  quality = record {
    events_generated = 4;
    events_dropped = 0;
    samples_generated = 2;
    samples_dropped = 0;
    complete_invocations = 2;
    incomplete_invocations = 0;
    stack_mismatches = 0;
    suspected_async_violations = 0;
  };
}

abbrev pub query : (low high : ℕ) → Metric → Query
query low high metric = record {
  function_id = 1;
  threads = none;
  time = none;
  percentile = record { low = low; high = high };
  metric = metric;
}

-- Numbers in hundredths, in place of `f64`.
abbrev pub hundredths : Float
hundredths = record {
  F64 = ℕ;
  of_u64 = λ n. n * 100;
  of_usize = λ n. n * 100;
  add = λ x y. x + y;
  sub = λ x y. x - y;
  mul = λ x y. x * y / 100;
  div = λ x y. x * 100 / y;
  clamp = λ x low high. max (low * 100) (min x (high * 100));
  floor = λ x. x / 100;
  ceil = λ x. (x + 99) / 100;
}

pub hundredths-IsScaling : IsScaling hundredths
hundredths-IsScaling = record {
  le = λ x y. x ≤ y;
  clamp-le = λ k. omega arith;
  clamp-ge = λ k. omega arith;
  div-le = λ x h. omega arith;
  div-ge = λ x h. omega arith;
  mul-le = λ x n h b. let c : n * x ≤ n * 100 = grind arith in omega (arith, c);
  floor-le = λ x n small h. omega (arith, h);
  ceil-le = λ x n small h. omega (arith, h);
}
