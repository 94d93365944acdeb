-- ===== src/Cli/Output.antt =====
-- crates/slice-cli/src/main.rs: the lines that the commands print. How `{:.3}` and `{:>12.3}` show a
-- number of nanoseconds in milliseconds as an `f64` is a parameter.
use slice.Base.{
  ℕ, zero, suc, ◌/◌, ◌%◌, ◌+◌, Option, none, some, List, [], ◌∷◌, ◌++◌, map, length, select, ltb,
  if◌then◌else◌,
}
use slice.Capture.{CheckStatus, pass, warning, failure, PrerequisiteCheck, DoctorReport}
use slice.Cli.Discover.{discover}
use slice.Cli.Doctor.{doctor_summary}
use slice.Cli.Summary.{sample_summary}
use slice.Core.Profile.{Profile, Metric}
use slice.Core.Validate.{is_complete}
use slice.Data.Decimal.{decimal}
use slice.Data.Text.{Text, codes}

-- `{address:016x}`.
abbrev hex_digit : ℕ → ℕ
hex_digit d = if ltb d 10 then 48 + d else 87 + d

hex_padded : (digits n : ℕ) → Text → Text
hex_padded zero n rest = rest
hex_padded (suc digits) n rest = hex_padded digits (n / 16) (hex_digit (n % 16) ∷ rest)

-- `list_symbols`.
unfoldable pub symbol_line : ℕ × Text → Text
unfolding hex_padded
symbol_line (address, demangled) = codes "0x" ++ hex_padded 16 address (9 ∷ demangled)

unfoldable pub symbol_lines : (path : Text) → List (ℕ × Text) → List Text
symbol_lines path entries =
    (codes "# module: " ++ path)
    ∷ codes "# copy a full demangled signature to --function for an exact profile target"
    ∷ map symbol_line entries

abbrev metric_name : Metric → Text
metric_name Metric.wall = codes "wall"
metric_name Metric.cpu = codes "CPU"
metric_name Metric.off_cpu = codes "off-CPU"

abbrev marker : CheckStatus → Text
marker pass = codes "ok"
marker warning = codes "warn"
marker failure = codes "fail"

abbrev fix_line : Option Text → List Text
fix_line none = []
fix_line (some remediation) = (codes "         fix: " ++ remediation) ∷ []

unfoldable pub check_lines : List PrerequisiteCheck → List Text
check_lines [] = []
check_lines (check ∷ checks) =
    (codes "  [" ++ marker check.status ++ codes "] " ++ check.label ++ codes ": " ++ check.detail)
      ∷ fix_line check.remediation
    ++ check_lines checks

-- `doctor`, before its result.
unfoldable pub doctor_lines : DoctorReport → List Text
doctor_lines report =
    let summary = doctor_summary report in
    ((codes "Slice doctor (adapter: " ++ report.adapter ++ codes ")") ∷ check_lines report.checks)
    ++ (codes "Doctor summary: "
        ++ decimal summary.passed
        ++ codes " passed, "
        ++ decimal summary.warnings
        ++ codes " warnings, "
        ++ decimal summary.failures
        ++ codes " failures")
      ∷ []

module _ (millis padded_millis : ℕ → Text) where
  -- `12 samples (10 on-CPU, 2 off-CPU / 0.001 ms), 0 dropped events, 0 dropped samples`.
  unfoldable pub samples_part : Profile → Text
  samples_part p =
      let summary = sample_summary p in
      decimal (length p.samples)
      ++ codes " samples ("
      ++ decimal summary.on_count
      ++ codes " on-CPU, "
      ++ decimal summary.off_count
      ++ codes " off-CPU / "
      ++ millis summary.off_ns
      ++ codes " ms), "
      ++ decimal p.quality.events_dropped
      ++ codes " dropped events, "
      ++ decimal p.quality.samples_dropped
      ++ codes " dropped samples"

  -- `validate`, if it accepts.
  unfoldable pub valid_line : Profile → Text
  valid_line p =
      codes "valid profile: "
      ++ decimal (length p.invocations)
      ++ codes " invocations, "
      ++ samples_part p

  -- `profile`, at its end.
  unfoldable pub captured_line : (name : Text) (pid : ℕ) → Profile → (output : Text) → Text
  captured_line name pid p output =
      codes "captured "
      ++ name
      ++ codes " at PID "
      ++ decimal pid
      ++ codes ": "
      ++ decimal (length (select is_complete p.invocations))
      ++ codes " complete invocations, "
      ++ samples_part p
      ++ codes " -> "
      ++ output

  unfoldable pub discover_lines : Profile → Metric → List Text
  discover_lines p metric =
      let summary = sample_summary p in
      (codes "Sample states: "
        ++ decimal summary.on_count
        ++ codes " on-CPU / "
        ++ millis summary.on_ns
        ++ codes " ms, "
        ++ decimal summary.off_count
        ++ codes " off-CPU / "
        ++ millis summary.off_ns
        ++ codes " ms")
      ∷ (codes "Observed "
          ++ metric_name metric
          ++ codes " functions (sampled inclusive time; discovery does not report exact p95):")
      ∷ map (λ (name, time). padded_millis time ++ codes " ms  " ++ name) (discover p metric)
