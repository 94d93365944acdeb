-- ===== src/Ebpf/Adapter.antt =====
-- crates/slice-ebpf/src/lib.rs: `LinuxCaptureAdapter`, which provides the port of a capture. How an
-- error is shown as text, and the answers of the host, are parameters.
use slice.Base.{ℕ, Bool, Option, none, some, List, Result, ok, map_err}
use slice.Capture.{CaptureError, CapturePort}
use slice.Collector.{SourceInvocation, ActiveInvocation}
use slice.Core.Profile.{Profile}
use slice.Data.Text.{Text}
use slice.Ebpf.Attach.{Kernel}
use slice.Ebpf.Capture.{World, capture_pid}
use slice.Ebpf.Doctor.{Host, linux_doctor_report}
use slice.Ebpf.Host.{IdentityError, resolve_process_identity}
use slice.Ebpf.Process.{
  Signal, SignalError, stop_process, kill_process, interrupt_process, wait_for_stopped,
}
use slice.Ebpf.Session.{CaptureFailure}

-- The errors of the adapter's functions.
pub data AdapterError : Type 0 where
  identity : IdentityError → AdapterError
  signal : SignalError → AdapterError
  capture : CaptureFailure → AdapterError

-- What the host answers.
pub record System : Type 0 where
  pub host : Host
  pub status : (pid : ℕ) → Option Text
  pub kill : (pid : ℕ) → Signal → Result Text (Unit {0})
  pub waitpid : (pid : ℕ) → Result Text Bool
  pub kernel : Kernel
  pub world : World

module _ (show : AdapterError → Text) where
  abbrev pub port_error : AdapterError → CaptureError
  port_error error = record { message = show error }

  abbrev ended : Option (Result CaptureFailure Profile) → Option (Result CaptureError Profile)
  ended none = none
  ended (some result) = some (map_err (λ e. port_error (capture e)) result)

  unfoldable pub linux_capture_adapter :
      (drain : List SourceInvocation → List SourceInvocation)
      (iterate : List ActiveInvocation → List ActiveInvocation)
      → System
      → CapturePort
  linux_capture_adapter drain iterate s = record {
    doctor = ok (linux_doctor_report s.host);
    resolve_process_identity =
        λ pid. map_err (λ e. port_error (identity e)) (resolve_process_identity pid (s.status pid));
    stop_process = λ pid. map_err (λ e. port_error (signal e)) (stop_process (s.kill pid)).1;
    wait_for_stopped =
        λ pid. map_err (λ e. port_error (signal e)) (wait_for_stopped (s.waitpid pid));
    kill_process = λ pid. map_err (λ e. port_error (signal e)) (kill_process (s.kill pid)).1;
    interrupt_process =
        λ pid. map_err (λ e. port_error (signal e)) (interrupt_process (s.kill pid)).1;
    capture = λ request. ended (capture_pid drain iterate s.kernel s.world request).outcome;
  }
