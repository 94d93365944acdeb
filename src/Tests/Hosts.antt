-- ===== src/Tests/Hosts.antt =====
-- The doctor at a host where the tracepoint is closed to an unprivileged user.
use slice.Base.{◌≡◌, ◌↔◌, refl, true, false, none, some, [], ◌++◌, ◌∷◌}
use slice.Capture.{has_failures}
use slice.Data.Numerals.{split, trim, parse_unsigned, parse_digits}
use slice.Data.Text.{codes}
use slice.Ebpf.Doctor.{
  Host, linux_doctor_report, denied, failed, kernel_at_least, kernel_release, uprobe_multi_named,
  tracepoint_access,
}
use slice.Ebpf.Doctor.Laws.{IsReady, has_failures-linux_doctor_report}

abbrev host : Host
host = record {
  arch = codes "x86_64";
  osrelease = some (codes "6.6.0\n");
  btf_is_file = true;
  btf = some (codes "x" ++ codes "BPF_TRACE_UPROBE_MULTI" ++ 0 ∷ []);
  tracing_format = denied;
  debug_format = failed;
  is_root = false;
  has_bpf = false;
  has_perfmon = false;
  has_ptrace = false;
  perf_event_paranoid = some (codes "2\n");
  unprivileged_bpf_disabled = none;
  limits = none;
}

has_failures-linux_doctor_report_example :
    (has_failures (linux_doctor_report host) ≡ false) ↔ IsReady host
has_failures-linux_doctor_report_example = has_failures-linux_doctor_report host

host_passes : has_failures (linux_doctor_report host) ≡ false
unfolding has_failures linux_doctor_report kernel_at_least kernel_release uprobe_multi_named
    tracepoint_access split trim parse_unsigned parse_digits
host_passes = refl

-- A kernel before 6.6.
host_fails :
    has_failures (linux_doctor_report (record host { osrelease = some (codes "6.5.13\n") })) ≡ true
unfolding has_failures linux_doctor_report kernel_at_least kernel_release uprobe_multi_named
    tracepoint_access split trim parse_unsigned parse_digits
host_fails = refl
