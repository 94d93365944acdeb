-- ===== src/Ebpf/Process.antt =====
-- crates/slice-ebpf/src/lib.rs: the signals to a target, the limit of locked memory, the clocks, and
-- whether a process lives. What the operating system answers is an argument.
use slice.Base.{
  ℕ, ◌+◌, ◌*◌, ◌%◌, ◌^◌, Bool, true, false, not, Option, none, some, List, [], ◌∷◌, ◌++◌, find, min,
  leb, if◌then◌else◌, Result, ok, err,
}
use slice.Data.Numerals.{lines, starts_with}
use slice.Data.Text.{Text, codes, text_eq}
use slice.Data.Words.{u64_max}
use slice.Ebpf.Resolver.Load.{words}

-- The constants of `libc` that are sent.
pub data Signal : Type 0 where
  stop kill interrupt continue : Signal

-- `kill(pid, signal)` with its answer; the signals that were sent stand in the first part.
pub data SignalError : Type 0 where
  refused_signal : (context : Text) → (os_error : Text) → SignalError
  wait_error : (os_error : Text) → SignalError
  exited_early : SignalError

abbrev pub Sent : Type 0
Sent = List Signal × Result SignalError (Unit {0})

-- `signal_process`, with the context that each caller adds.
unfoldable pub signal_process : (answer : Signal → Result Text (Unit {0})) → Signal → Text → Sent
signal_process answer signal context = elim (answer signal) [
  | ok u ↦ (signal ∷ [], ok tt)
  | err os_error ↦ ([], err (refused_signal context os_error))
]

abbrev pub stop_process : (Signal → Result Text (Unit {0})) → Sent
stop_process answer = signal_process answer stop (codes "stopping launched target")

abbrev pub kill_process : (Signal → Result Text (Unit {0})) → Sent
kill_process answer = signal_process answer kill (codes "killing launched target")

-- The second call, if the first one has sent its signal.
abbrev and_then : Sent → Sent → Sent
and_then (sent, err e) next = (sent, err e)
and_then (sent, ok u) (more, result) = (sent ++ more, result)

-- The target is resumed only if the interrupt was sent.
unfoldable pub interrupt_process : (Signal → Result Text (Unit {0})) → Sent
interrupt_process answer =
    and_then (signal_process answer interrupt (codes "interrupting target"))
      (signal_process answer continue (codes "resuming interrupted target"))

-- What `waitpid` gives: an error, or whether the child is stopped.
unfoldable pub wait_for_stopped : Result Text Bool → Result SignalError (Unit {0})
wait_for_stopped (err os_error) = err (wait_error os_error)
wait_for_stopped (ok false) = err exited_early
wait_for_stopped (ok true) = ok tt

pub record Limit : Type 0 where
  pub soft : ℕ
  pub hard : ℕ

-- The limit that `setrlimit` is called with, if it is called.
unfoldable pub raised_limit : Option Limit → Option Limit
raised_limit none = none
raised_limit (some current) =
    if leb current.hard current.soft
    then none
    else some (record { soft = current.hard; hard = current.hard })

-- `split_whitespace().nth(1)`.
abbrev second_word : List Text → Option Text
second_word (first ∷ second ∷ more) = some second
second_word _ = none

abbrev is_zombie : Option Text → Bool
is_zombie none = false
is_zombie (some word) = text_eq word (codes "Z")

abbrev state_of : Option Text → Option Text
state_of none = none
state_of (some line) = second_word (words line)

-- `process_exists` of the text of `/proc/<pid>/status`: a zombie does not, and one of which no state
-- is shown does.
unfoldable pub process_exists : (status : Option Text) → Bool
process_exists none = false
process_exists (some status) =
    not (is_zombie (state_of (find (λ line. starts_with (codes "State:") line) (lines status))))

-- The monotonic clock, in a `u64`.
unfoldable pub monotonic_ns : (seconds nanoseconds : ℕ) → ℕ
monotonic_ns seconds nanoseconds = (seconds * 1_000_000_000 + nanoseconds) % 2 ^ 64

-- The time since 1970 in nanoseconds; `none` for a clock that is set before.
unfoldable pub unix_time_ns : (since_epoch : Option ℕ) → ℕ
unix_time_ns none = 0
unix_time_ns (some nanoseconds) = min nanoseconds u64_max
