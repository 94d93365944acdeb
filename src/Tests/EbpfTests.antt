-- ===== src/Tests/EbpfTests.antt =====
-- The unit tests of crates/slice-ebpf/src/lib.rs, crates/slice-capture/src/lib.rs and
-- crates/slice-cli/src/main.rs, less the one that reads the running process.
use slice.Base.{ℕ, ◌≡◌, refl, true, false, some, List, [], ◌∷◌, map, ok, err}
use slice.Capture.{DoctorReport, failure, has_failures}
use slice.Cli.Arguments.{
  percentile_out_of_order, parse_percentile, in_order, parse_duration_ns, parse_with,
}
use slice.Data.Numerals.{
  contains_text, lines, split, strip_suffix, parse_unsigned, parse_digits, split_once, trim,
}
use slice.Data.Sort.{sort}
use slice.Data.Text.{codes}
use slice.Ebpf.Doctor.{kernel_at_least}
use slice.Ebpf.Events.{Event, sort_events, event_leb, event_kind_order}
use slice.Ebpf.Host.{
  parse_kernel_tgid, find_prefixed, first_word, diagnose_empty_capture, never_fired, all_rejected,
  none_delivered,
}

kernel_floor :
    (kernel_at_least (codes "6.18.33.2-microsoft-standard-WSL2") 6 6 ≡ true)
    × (kernel_at_least (codes "6.8.0-ubuntu") 6 6 ≡ true)
    × (kernel_at_least (codes "5.15.167.4-microsoft") 6 6 ≡ false)
    × (kernel_at_least (codes "unavailable") 6 6 ≡ false)
unfolding kernel_at_least split parse_unsigned parse_digits
kernel_floor = (refl, refl, refl, refl)

outermost_namespace_pid :
    (parse_kernel_tgid (codes "Tgid:\t41\nNSpid:\t9001\t41\n") ≡ some 9001)
    × (parse_kernel_tgid (codes "Tgid:\t41\n") ≡ some 41)
unfolding parse_kernel_tgid find_prefixed first_word lines split strip_suffix parse_unsigned
    parse_digits trim
outermost_namespace_pid = (refl, refl)

diagnoses_differ :
    (diagnose_empty_capture 0 0 ≡ never_fired)
    × (diagnose_empty_capture 4000 0 ≡ all_rejected)
    × (diagnose_empty_capture 4000 4000 ≡ none_delivered)
unfolding diagnose_empty_capture
diagnoses_differ = (refl, refl, refl)

abbrev event : (kind timestamp_ns invocation_id : ℕ) → Event
event kind timestamp_ns invocation_id = record {
  kind = kind;
  tid = 42;
  timestamp_ns = timestamp_ns;
  invocation_id = invocation_id;
  stack_id = some 0;
  cpu = 0;
  weight_ns = 0;
}

abbrev events : List Event
events = event 2 30 2 ∷ event 1 10 1 ∷ event 5 20 1 ∷ []

replay_orders_events :
    map {B = ℕ × ℕ} (λ e. (e.kind, e.invocation_id)) (sort_events events)
    ≡ (1, 1) ∷ (5, 1) ∷ (2, 2) ∷ []
unfolding sort_events sort event_leb event_kind_order
replay_orders_events = refl

kernel_feature_found :
    contains_text
      (codes "BPF_TRACE_UPROBE_MULTI\0")
      (codes "prefix\0BPF_TRACE_UPROBE_MULTI\0suffix")
    ≡ true
kernel_feature_found = refl

abbrev report : DoctorReport
report = record {
  adapter = codes "test";
  checks =
      record {
        key = codes "kernel";
        label = codes "kernel";
        status = failure;
        detail = codes "missing";
        remediation = some (codes "install one");
      }
      ∷ [];
}

failure_is_derived : has_failures report ≡ true
unfolding has_failures
failure_is_derived = refl

parses_cli_ranges :
    (parse_percentile (codes "99:100") ≡ ok (record { low = 99; high = 100 }))
    × (parse_duration_ns (codes "2ms") ≡ ok 2_000_000)
    × (parse_percentile (codes "100:99") ≡ err percentile_out_of_order)
unfolding parse_percentile in_order parse_duration_ns parse_with split_once parse_unsigned
    parse_digits strip_suffix trim
parses_cli_ranges = (refl, refl, refl)
