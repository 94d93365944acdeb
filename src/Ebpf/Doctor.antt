-- ===== src/Ebpf/Doctor.antt =====
-- crates/slice-ebpf/src/lib.rs: `linux_doctor_report` and the tests that it uses. What it reads from
-- the host is a record of inputs.
pub mod Laws
use slice.Base.{
  ℕ, Bool, true, false, not, ◌&&◌, ◌||◌, Option, none, some, List, [], ◌∷◌, ◌++◌, ltb, leb, ◌==◌,
  if◌then◌else◌, find,
}
use slice.Capture.{CheckStatus, pass, warning, failure, PrerequisiteCheck, DoctorReport}
use slice.Data.Numerals.{
  split, trim, parse_unsigned, starts_with, contains_text, lines, to_ascii_lowercase,
}
use slice.Data.Text.{Text, codes, text_eq}
use slice.Data.Words.{u32_max}

-- How reading a file ended.
pub data Reading : Type 0 where
  read_ok denied failed : Reading

pub record Host : Type 0 where
  pub arch : Text
  pub osrelease : Option Text
  pub btf_is_file : Bool
  pub btf : Option (List ℕ)
  pub tracing_format : Reading
  pub debug_format : Reading
  pub is_root : Bool
  pub has_bpf : Bool
  pub has_perfmon : Bool
  pub has_ptrace : Bool
  pub perf_event_paranoid : Option Text
  pub unprivileged_bpf_disabled : Option Text
  pub limits : Option Text

pub data AccessStatus : Type 0 where
  available permission_denied missing : AccessStatus

abbrev pub as_str : AccessStatus → Text
as_str available = codes "available"
as_str permission_denied = codes "permission denied"
as_str missing = codes "missing"

-- The loop over the two paths, with the flag `permission_denied`.
abbrev pub access_from : Bool → List Reading → AccessStatus
access_from denied_before [] = if denied_before then permission_denied else missing
access_from denied_before (read_ok ∷ rs) = available
access_from denied_before (denied ∷ rs) = access_from true rs
access_from denied_before (failed ∷ rs) = access_from denied_before rs

unfoldable pub tracepoint_access : Host → AccessStatus
tracepoint_access h = access_from false (h.tracing_format ∷ h.debug_format ∷ [])

abbrev pub version_of : List Text → Option (ℕ × ℕ)
version_of (major ∷ minor ∷ parts) = elim (parse_unsigned u32_max major) [
  | none ↦ none
  | some a ↦ elim (parse_unsigned u32_max minor) [ none ↦ none | some b ↦ some (a, b) ]
]
version_of _ = none

unfoldable pub kernel_at_least : Text → (required_major required_minor : ℕ) → Bool
kernel_at_least release required_major required_minor = elim (version_of (split 46 release)) [
  | none ↦ false
  | some (major, minor) ↦
      ltb required_major major || ((major == required_major) && leb required_minor minor)
]

abbrev pub yes_no : Bool → Text
yes_no true = codes "yes"
yes_no false = codes "no"

abbrev pub or_unavailable : Option Text → Text
or_unavailable none = codes "unavailable"
or_unavailable (some s) = s

unfoldable pub kernel_release : Host → Text
kernel_release h = trim (or_unavailable h.osrelease)

unfoldable pub uprobe_multi_named : Host → Bool
uprobe_multi_named h = elim h.btf [
  | none ↦ false
  | some btf ↦ contains_text (codes "BPF_TRACE_UPROBE_MULTI" ++ 0 ∷ []) btf
]

abbrev pub capture_authorized : Host → Bool
capture_authorized h = h.is_root || (h.has_bpf && (h.has_perfmon && h.has_ptrace))

-- A check that fails with advice unless its condition holds.
abbrev pub required_check : (key label : Text) → Bool → (detail advice : Text) → PrerequisiteCheck
required_check key label met detail advice = record {
  key = key;
  label = label;
  status = if met then pass else failure;
  detail = detail;
  remediation = if met then none else some advice;
}

-- A check that only informs.
abbrev pub information : (key label detail : Text) → PrerequisiteCheck
information key label detail = record {
  key = key;
  label = label;
  status = pass;
  detail = detail;
  remediation = none;
}

abbrev pub tracepoint_status : AccessStatus → Bool → CheckStatus
tracepoint_status available authorized = pass
tracepoint_status permission_denied authorized = if authorized then failure else warning
tracepoint_status missing authorized = failure

abbrev pub tracepoint_advice : AccessStatus → Option Text
tracepoint_advice available = none
tracepoint_advice permission_denied =
    some (codes "rerun `slice doctor` with the same sudo/capabilities used for capture")
tracepoint_advice missing = some (codes "mount tracefs and enable sched_switch tracing")

abbrev pub authority_detail : Host → Text
authority_detail h =
    if h.is_root
    then codes "root"
    else codes "CAP_BPF="
      ++ yes_no h.has_bpf
      ++ codes ", CAP_PERFMON="
      ++ yes_no h.has_perfmon
      ++ codes ", CAP_SYS_PTRACE="
      ++ yes_no h.has_ptrace

abbrev pub memlock_detail : Host → Text
memlock_detail h = elim h.limits [
  | none ↦ codes "unavailable"
  | some limits ↦ or_unavailable (find (starts_with (codes "Max locked memory")) (lines limits))
]

abbrev pub wsl_check : Text → List PrerequisiteCheck
wsl_check release =
    if contains_text (codes "microsoft") (to_ascii_lowercase release)
    then information (codes "wsl") (codes "WSL") (codes "WSL 2 detected") ∷ []
    else []

unfoldable pub linux_doctor_report : Host → DoctorReport
linux_doctor_report h = record {
  adapter = codes "linux-ebpf";
  checks =
      required_check (codes "architecture") (codes "architecture") (text_eq h.arch (codes "x86_64"))
        h.arch (codes "run Slice on Linux x86-64")
      ∷ required_check (codes "kernel") (codes "kernel release")
          (kernel_at_least (kernel_release h) 6 6) (kernel_release h)
          (codes
            "upgrade to Linux 6.6+; for WSL run `wsl --update` and `wsl --shutdown` in Administrator PowerShell")
      ∷ required_check (codes "btf") (codes "kernel BTF") h.btf_is_file
          (if h.btf_is_file then codes "available" else codes "missing /sys/kernel/btf/vmlinux")
          (codes "boot a kernel built with BTF information")
      ∷ required_check (codes "uprobe_multi") (codes "process-wide uprobe-multi links")
          (uprobe_multi_named h)
          (if uprobe_multi_named h
            then codes "BPF_TRACE_UPROBE_MULTI present in kernel BTF"
            else codes "BPF_TRACE_UPROBE_MULTI not found in kernel BTF")
          (codes "boot a Linux 6.6+ kernel with CONFIG_UPROBES and CONFIG_BPF_EVENTS")
      ∷ record {
        key = codes "sched_switch";
        label = codes "sched_switch tracepoint";
        status = tracepoint_status (tracepoint_access h) (capture_authorized h);
        detail = as_str (tracepoint_access h);
        remediation = tracepoint_advice (tracepoint_access h);
      }
      ∷ record {
        key = codes "authority";
        label = codes "capture authority";
        status = if capture_authorized h then pass else warning;
        detail = authority_detail h;
        remediation =
            if capture_authorized h
            then none
            else some (
                codes
                  "run `slice doctor` and `slice profile` with sudo, or grant CAP_BPF,CAP_PERFMON,CAP_SYS_PTRACE");
      }
      ∷ information (codes "perf_event_paranoid") (codes "perf_event_paranoid")
          (trim (or_unavailable h.perf_event_paranoid))
      ∷ information (codes "unprivileged_bpf_disabled") (codes "unprivileged_bpf_disabled")
          (trim (or_unavailable h.unprivileged_bpf_disabled))
      ∷ information (codes "memlock") (codes "memlock limit") (memlock_detail h)
      ∷ wsl_check (kernel_release h);
}
