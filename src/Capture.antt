-- ===== src/Capture.antt =====
-- crates/slice-capture/src/lib.rs: what the command line and an adapter exchange.
use slice.Base.{ℕ, Bool, true, false, Option, List, any, Result}
use slice.Core.Profile.{Function, Profile}
use slice.Data.Text.{Text}

pub record ProcessIdentity : Type 0 where
  pub pid : ℕ
  pub kernel_tgid : ℕ

-- The shared flag `stop_requested` is not in the request, since it changes while the capture runs.
pub record CaptureRequest : Type 0 where
  pub target : ProcessIdentity
  pub module_path : Text
  pub function : Function
  pub probe_offset : ℕ
  pub command : List Text
  pub resume_after_attach : Bool

pub data CheckStatus : Type 0 where
  pass warning failure : CheckStatus

pub record PrerequisiteCheck : Type 0 where
  pub key : Text
  pub label : Text
  pub status : CheckStatus
  pub detail : Text
  pub remediation : Option Text

pub record DoctorReport : Type 0 where
  pub adapter : Text
  pub checks : List PrerequisiteCheck

abbrev pub is_failure : CheckStatus → Bool
is_failure failure = true
is_failure _ = false

-- `DoctorReport::has_failures`.
unfoldable pub has_failures : DoctorReport → Bool
has_failures report = any (λ check. is_failure check.status) report.checks

pub record CaptureError : Type 0 where
  pub message : Text

-- What a platform provides. A capture is `none` as long as it goes on.
pub record CapturePort : Type 0 where
  pub doctor : Result CaptureError DoctorReport
  pub resolve_process_identity : (pid : ℕ) → Result CaptureError ProcessIdentity
  pub stop_process : (pid : ℕ) → Result CaptureError (Unit {0})
  pub wait_for_stopped : (pid : ℕ) → Result CaptureError (Unit {0})
  pub kill_process : (pid : ℕ) → Result CaptureError (Unit {0})
  pub interrupt_process : (pid : ℕ) → Result CaptureError (Unit {0})
  pub capture : CaptureRequest → Option (Result CaptureError Profile)
