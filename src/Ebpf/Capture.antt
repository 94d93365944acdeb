-- ===== src/Ebpf/Capture.antt =====
-- crates/slice-ebpf/src/lib.rs: `capture_pid` as a whole. What happens while the target runs is a
-- parameter: what `/proc` shows, what the ring buffer delivers, what the BPF maps and the clocks show
-- at the end.
pub mod Laws
pub mod Polls
use slice.Base.{
  ℕ, ltb, ◌&&◌, Option, none, some, List, [], ◌∷◌, ◌++◌, ◌==◌, if◌then◌else◌, Result, ok, err,
}
use slice.Capture.{CaptureRequest}
use slice.Collector.{SourceInvocation, ActiveInvocation}
use slice.Core.Profile.{Profile, Metadata}
use slice.Data.Numerals.{trim}
use slice.Data.Text.{Text}
use slice.Ebpf.Attach.{Kernel, set_up, sample_period_ns}
use slice.Ebpf.Host.{
  EmptyCapture, diagnose_empty_capture, read_indexed_counter, read_u32, read_thread_names,
}
use slice.Ebpf.Process.{monotonic_ns, unix_time_ns}
use slice.Ebpf.Replay.{Captured, replay}
use slice.Ebpf.Resolver.{Resolver}
use slice.Ebpf.Ring.{Store, no_store, Round, watch, drain_ring}
use slice.Ebpf.Session.{Effect, CaptureFailure, polling}

-- The entries of `/proc/<pid>/task` before the set-up, the rounds of the loop and of the last polls,
-- then what is read after the links are detached. A lookup in a map gives `none` where it fails.
pub record World : Type 0 where
  pub task : List (Option (Text × Option Text))
  pub rounds : List Round
  pub last_polls : (index : ℕ) → Round
  pub dropped_events : Option (List ℕ)
  pub dropped_samples : Option (List ℕ)
  pub probe_diagnostics : (index : ℕ) → Option (List ℕ)
  pub observed_tgid : Option (List ℕ)
  pub since_epoch : Option ℕ
  pub osrelease : Option Text
  pub monotonic : ℕ × ℕ

-- The two messages on standard error.
pub data Report : Type 0 where
  empty_capture :
      (raw_entries raw_returns accepted_entries events_dropped samples_dropped : ℕ)
      → (pid kernel_tgid : ℕ) (observed_tgid : Option ℕ) (interpretation : EmptyCapture) → Report
  no_switch_ins : (scheduler_switch_outs : ℕ) → Report

abbrev or_empty : Option Text → Text
or_empty none = []
or_empty (some text) = text

unfoldable pub metadata_of : World → CaptureRequest → Metadata
metadata_of w request = record {
  captured_at_unix_ns = unix_time_ns w.since_epoch;
  command = request.command;
  kernel_release = trim (or_empty w.osrelease);
  sample_period_ns = sample_period_ns;
}

abbrev pub last_three : World → List Round
last_three w = w.last_polls 0 ∷ w.last_polls 1 ∷ w.last_polls 2 ∷ []

-- The loop, and at most three polls after it; `none` where the rounds are too few for it to end.
unfoldable pub collect : World → Option (Result Text Store)
collect w = elim (watch w.rounds no_store) [
  | none ↦ none
  | some (err message) ↦ some (err message)
  | some (ok s) ↦ some (drain_ring (last_three w) s)
]

-- What the replay starts from.
unfoldable pub captured : World → CaptureRequest → Resolver → Store → Captured
captured w request resolver s = record {
  metadata = metadata_of w request;
  function = request.function;
  resolver = resolver;
  thread_names = read_thread_names w.task;
  stacks = s.stacks;
  events = s.events;
  events_dropped = read_indexed_counter w.dropped_events;
  samples_dropped = read_indexed_counter w.dropped_samples;
  monotonic_ns = monotonic_ns w.monotonic.0 w.monotonic.1;
}

abbrev diagnostic : World → ℕ → ℕ
diagnostic w index = read_indexed_counter (w.probe_diagnostics index)

unfoldable pub empty_report : World → CaptureRequest → List Report
empty_report w request =
    empty_capture (diagnostic w 0) (diagnostic w 2) (diagnostic w 1)
      (read_indexed_counter w.dropped_events) (read_indexed_counter w.dropped_samples)
      request.target.pid request.target.kernel_tgid (read_u32 w.observed_tgid)
      (diagnose_empty_capture (diagnostic w 0) (diagnostic w 1))
    ∷ []

unfoldable pub switch_report : World → List Report
switch_report w =
    if ltb 0 (diagnostic w 3) && (diagnostic w 4 == 0)
    then no_switch_ins (diagnostic w 3) ∷ []
    else []

unfoldable pub reports : World → CaptureRequest → Store → List Report
reports w request s = elim s.events [ [] ↦ empty_report w request | e ∷ es ↦ [] ] ++ switch_report w

pub record Capture : Type 0 where
  pub effects : List Effect
  pub reports : List Report
  pub outcome : Option (Result CaptureFailure Profile)

module _ (drain : List SourceInvocation → List SourceInvocation)
    (iterate : List ActiveInvocation → List ActiveInvocation) where
  -- From the end of the set-up on.
  unfoldable pub run_capture : World → CaptureRequest → List Effect → Resolver → Capture
  run_capture w request effects resolver = elim (collect w) [
    | none ↦ record { effects = effects; reports = []; outcome = none }
    | some (err message) ↦ record {
      effects = effects;
      reports = [];
      outcome = some (err (polling message));
    }
    | some (ok s) ↦ record {
      effects = effects;
      reports = reports w request s;
      outcome = some (ok (replay drain iterate (captured w request resolver s)));
    }
  ]

  unfoldable pub capture_pid : Kernel → World → CaptureRequest → Capture
  capture_pid k w request = elim (set_up k request).1 [
    | err e ↦ record { effects = (set_up k request).0; reports = []; outcome = some (err e) }
    | ok resolver ↦ run_capture w request (set_up k request).0 resolver
  ]
