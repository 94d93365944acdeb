-- ===== src/Tests/Options.antt =====
-- The options of `slice view`, written and read back.
use slice.Base.{ℕ, ◌≡◌, ◌≢◌, refl, subst, some, List, [], ◌∷◌, ok, arith, All, ◌≤◌, ◌<◌}
use slice.Cli.Arguments.Printed.{IsPrintable, printed, query_of-printed}
use slice.Cli.View.{Arguments, query_of}
use slice.Core.Envelope.{capture_bounds}
use slice.Core.Profile.{Metric, TimeRange}
use slice.Core.Query.{Query}
use slice.Data.Decimal.{decimal}
use slice.Data.Text.{codes}
use slice.Data.Words.{u32_max, u64_max}
use slice.Tests.Data.{two_threads, work}

abbrev tail : Query
tail = record {
  function_id = 1;
  threads = some (10 ∷ 11 ∷ []);
  time = some (record { from_ns = 10; to_ns = 30 });
  percentile = record { low = 95; high = 100 };
  metric = Metric.cpu;
}

abbrev options : Arguments
options = record {
  threads = some (codes "10,11");
  time = some (codes "10ns:30ns");
  percentile = codes "95:100";
  metric = Metric.cpu;
}

printed_tail : printed 0 tail ≡ options
unfolding decimal
printed_tail = refl

spans : capture_bounds two_threads.invocations ≡ some (record { from_ns = 0; to_ns = 40 })
unfolding capture_bounds
spans = refl

tail-IsPrintable : IsPrintable (record { from_ns = 0; to_ns = 40 }) tail
tail-IsPrintable = record {
  threads = λ tids e.
      let same : ◌≡◌ {A = List ℕ} (10 ∷ 11 ∷ []) tids = cc in
      subst (λ ts. (ts ≢ []) × All (λ tid. tid ≤ u32_max) ts) same
        ((λ empty. cc), (omega arith, (omega arith, tt)));
  time = λ r e.
      let same : ◌≡◌ {A = TimeRange} (record { from_ns = 10; to_ns = 30 }) r = cc in
      subst (λ t. (0 ≤ t.from_ns) × (t.from_ns < t.to_ns) × (t.to_ns ≤ u64_max)) same
        (omega arith, omega arith, omega arith);
  percentile = refl;
}

query_of-printed_example : query_of two_threads (printed 0 tail) work ≡ ok tail
query_of-printed_example =
    query_of-printed two_threads work (record { from_ns = 0; to_ns = 40 }) spans tail refl
      tail-IsPrintable
