-- ===== src/Ebpf/Replay.antt =====
-- crates/slice-ebpf/src/lib.rs: the end of `capture_pid`, from the records of the ring buffer
-- to the profile, and `rebuild_threads`. The kernel side, the clocks and `/proc` are inputs.
pub mod Counters
pub mod Consistent
pub mod Order
pub mod Sound
pub mod Threads
use slice.Base.{
  ℕ, ◌+◌, ◌*◌, Bool, true, false, not, ◌||◌, Option, none, some, List, [], ◌∷◌, ◌++◌, map, length,
  any, ltb, leb, ◌==◌, if◌then◌else◌, is_some_and, max,
}
use slice.Collector.{
  ActiveInvocation, SourceInvocation, CollectorEvent, entry, return, violation, sample, State,
  default, with_quality,
}
use slice.Collector.Finish.{finish}
use slice.Collector.Push.{push}
use slice.Core.Profile.{
  Profile, Metadata, Function, Thread, Invocation, Frame, Sample, CaptureQuality, ExecutionState,
  on_cpu, off_cpu,
}
use slice.Data.Maps.{get}
use slice.Data.Sort.{ascending}
use slice.Data.Text.{Text, text_eq}
use slice.Data.Words.{sat_add}
use slice.Ebpf.Events.{Event, sort_events}
use slice.Ebpf.Resolver.{Resolver, frames}

-- `CaptureQuality::default`.
abbrev pub no_quality : CaptureQuality
no_quality = record {
  events_generated = 0;
  events_dropped = 0;
  samples_generated = 0;
  samples_dropped = 0;
  complete_invocations = 0;
  incomplete_invocations = 0;
  stack_mismatches = 0;
  suspected_async_violations = 0;
}

abbrev pub empty_profile : Metadata → Function → Profile
empty_profile metadata function = record {
  format_version = 1;
  metadata = metadata;
  functions = function ∷ [];
  threads = [];
  invocations = [];
  stacks = [];
  samples = [];
  quality = no_quality;
}

unfoldable pub rebuild_threads : Profile → List (ℕ × Text) → Profile
rebuild_threads p names = record p {
  threads =
      map (λ tid. record { tid = tid; name = get tid names })
        (ascending (map (λ i. i.tid) p.invocations ++ map (λ s. s.tid) p.samples));
}

-- What `capture_pid` has when the links are detached.
pub record Captured : Type 0 where
  pub metadata : Metadata
  pub function : Function
  pub resolver : Resolver
  pub thread_names : List (ℕ × Text)
  pub stacks : List (ℕ × List ℕ)
  pub events : List Event
  pub events_dropped : ℕ
  pub samples_dropped : ℕ
  pub monotonic_ns : ℕ

-- The addresses of a stack; none where the stack is missing.
unfoldable pub addresses_of : List (ℕ × List ℕ) → Option ℕ → List ℕ
addresses_of stacks none = []
addresses_of stacks (some id) = elim (get id stacks) [ none ↦ [] | some addresses ↦ addresses ]

abbrev pub is_selected : Function → Frame → Bool
is_selected function frame =
    text_eq frame.label function.demangled_name
    || is_some_and (λ id. id == function.id) frame.function_id

abbrev pub selected_frame : Function → Frame
selected_frame function = record {
  function_id = some function.id;
  label = function.demangled_name;
  module_path = some function.module_path;
  address = some function.address;
}

-- A blocked interval keeps the selected function as its root, if its stack does not show it.
unfoldable pub off_cpu_frames : Function → List Frame → List Frame
off_cpu_frames function fs =
    if not (any (is_selected function) fs) then selected_frame function ∷ fs else fs

-- The event that a record stands for; `none` for a kind that is not known.
unfoldable pub event_of : Captured → Event → Option CollectorEvent
event_of c e =
    let id = some e.invocation_id in
    let stack = frames c.resolver (addresses_of c.stacks e.stack_id) in
    if e.kind == 1
    then some (entry id c.function.id e.tid e.timestamp_ns)
    else if e.kind == 2
    then some (return id c.function.id e.tid e.timestamp_ns)
    else if e.kind == 3
    then some (sample id e.tid e.timestamp_ns e.cpu on_cpu e.weight_ns stack)
    else if e.kind == 4
    then some (violation e.tid e.timestamp_ns)
    else if e.kind == 5
    then some
        (sample id e.tid e.timestamp_ns e.cpu off_cpu e.weight_ns (off_cpu_frames c.function stack))
    else none

-- One round of the loop over the sorted records.
unfoldable pub replay_event : Captured → State → Event → State
replay_event c (correlator, p) e = elim (event_of c e) [
  | none ↦
      (correlator, with_quality (λ q. record q { events_dropped = sat_add q.events_dropped 1 }) p)
  | some event ↦ push (correlator, p) event
]

unfoldable pub replay_events : Captured → State → List Event → State
replay_events c s [] = s
replay_events c s (e ∷ es) = replay_events c (replay_event c s e) es

unfoldable pub start_profile : Captured → Profile
start_profile c =
    with_quality
      (λ q. record q { events_dropped = c.events_dropped; samples_dropped = c.samples_dropped })
      (empty_profile c.metadata c.function)

-- The profile that `capture_pid` returns.
unfoldable pub replay :
    (drain : List SourceInvocation → List SourceInvocation)
    (iterate : List ActiveInvocation → List ActiveInvocation)
    → Captured
    → Profile
replay drain iterate c =
    let s = replay_events c (default, start_profile c) (sort_events c.events) in
    let p = rebuild_threads (finish drain iterate s c.monotonic_ns) c.thread_names in
    with_quality
      (λ q. record q { events_generated = max q.events_generated (length p.invocations * 2) }) p
