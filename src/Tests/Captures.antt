-- ===== src/Tests/Captures.antt =====
-- The records of a capture and their replay, at two invocations on one thread.
use mathlib.Core.List.{Perm, reverse, reverse_perm}
use mathlib.Core.List.Perm
use slice.Base.{ℕ, ◌≡◌, none, List, [], ◌∷◌, arith, ◌-◌, ◌^◌}
use slice.Data.Sort.{IsSorted}
use slice.Core.Validate.{
  validate, invalid_invocation_bounds, unique_ids, check_invocation, check_parent, check_ancestry,
  ancestry_repeats, check_frame, check_sample, check_sample_in, check_quality,
}
use slice.Ebpf.Replay.{replay_events, replay_event, event_of, start_profile, addresses_of}
use slice.Data.Sort.{sort, ascending, dedup}
use slice.Ebpf.Events.{event_kind_order}
use slice.Collector.Push.{push}
use slice.Collector.Source.{source_entry, source_return, source_sample, enter, leave}
use slice.Collector.Finish.{
  finish, finish_sources, invalidate_all, emit_all, emit, emit_known, emit_samples, emit_sample,
  close_active,
}
use slice.Collector.Stacks.{append_sample, intern, id_of, frames_discrete}
use slice.Ebpf.Resolver.{frames, frame_at, file_address, symbol_at}
use slice.Core.Validate.{validate, invalid_invocation_bounds}
use slice.Base.{refl, err, some, ok}
use slice.Ebpf.Replay.{rebuild_threads}
use slice.Collector.Counters.{IsCounted}
use slice.Data.Text.{codes}
use slice.Ebpf.Replay.{Captured, replay}
use slice.Ebpf.Replay.Order.{replay_order}
use slice.Collector.Histories.{push_all-history, history, concerns}
use slice.Collector.{CollectorEvent, entry, return, sample, State, default}
use slice.Core.Profile.{on_cpu}
use slice.Data.Maps.{get}
use slice.Collector.Push.{push_all}
use slice.Base.{select}
use slice.Ebpf.Replay.Counters.{replay-IsCounted}
use slice.Ebpf.Replay.Consistent.{IsConsistent}
use slice.Ebpf.Replay.Sound.{replay-IsWellFormed}
use slice.Core.Validate.Spec.{IsWellFormed}
use slice.Base.{All, ◌≤◌, if◌then◌else◌, ◌==◌}
use slice.Tests.Data.{metadata, work}
use slice.Ebpf.Events.{Event, event_leb, read_event, sort_events, stack_index}
use slice.Ebpf.Events.Order.{by_key, sort_events-IsSorted}
use slice.Ebpf.Events.Wire.{layout, read_event-layout}

abbrev pub event : (kind timestamp_ns invocation_id : ℕ) → Event
event kind timestamp_ns invocation_id = record {
  kind = kind;
  tid = 10;
  timestamp_ns = timestamp_ns;
  invocation_id = invocation_id;
  stack_id = none;
  cpu = 0;
  weight_ns = 0;
}

-- The return of an invocation that was delivered before its entry.
abbrev delivered : List Event
delivered = event 2 30 1 ∷ event 1 20 1 ∷ []

sort_events-IsSorted_example :
    Perm (sort_events delivered) delivered × IsSorted by_key (sort_events delivered)
sort_events-IsSorted_example = sort_events-IsSorted delivered

read_event-layout_example : read_event (layout 5 10 1000 7 (2 ^ 32 - 14) 3 9) ≡ record {
  kind = 5;
  tid = 10;
  timestamp_ns = 1000;
  invocation_id = 7;
  stack_id = stack_index (2 ^ 32 - 14);
  cpu = 3;
  weight_ns = 9;
}
read_event-layout_example =
    read_event-layout 5 10 1000 7 (2 ^ 32 - 14) 3 9 (omega arith) (omega arith) (omega arith)
      (omega arith) (omega arith) (omega arith) (omega arith)

-- A capture of one invocation with a sample of a known stack, and of another that has no return.
abbrev pub captured : Captured
captured = record {
  metadata = metadata;
  function = work;
  resolver = record {
    symbols = (0x1000, codes "work()") ∷ [];
    mappings = record { runtime_start = 0x5000; runtime_end = 0x7000; file_start = 0x1000 } ∷ [];
  };
  thread_names = (10, codes "main") ∷ [];
  stacks = (3, 0x5010 ∷ []) ∷ [];
  events =
      event 2 30 1
      ∷ record (event 3 25 1) { stack_id = some 3; weight_ns = 7 }
      ∷ event 1 20 1
      ∷ event 1 40 2
      ∷ [];
  events_dropped = 0;
  samples_dropped = 0;
  monotonic_ns = 50;
}

abbrev pub in_order {ℓ} : {A : Type ℓ} → List A → List A
in_order xs = xs

replay-IsCounted_example : IsCounted (replay in_order in_order captured)
replay-IsCounted_example = replay-IsCounted in_order in_order captured

-- The return of an invocation is stamped before its entry: the record keeps both times, marked
-- invalid, and `validate` refuses the profile.
abbrev reversed : Captured
reversed = record captured { events = event 1 20 1 ∷ event 2 5 1 ∷ [] }

reversed_refused : validate (replay in_order in_order reversed) ≡ err (invalid_invocation_bounds 1)
unfolding validate unique_ids check_invocation check_parent check_ancestry ancestry_repeats
    check_frame check_sample check_sample_in check_quality replay replay_events replay_event
    event_of sort_events sort event_leb event_kind_order push source_entry source_return
    source_sample enter leave finish finish_sources invalidate_all emit_all emit emit_known
    emit_samples emit_sample append_sample intern id_of close_active rebuild_threads ascending dedup
    start_profile frames frame_at file_address symbol_at addresses_of frames_discrete
reversed_refused = refl

captured_accepted : validate (replay in_order in_order captured) ≡ ok tt
unfolding validate unique_ids check_invocation check_parent check_ancestry ancestry_repeats
    check_frame check_sample check_sample_in check_quality replay replay_events replay_event
    event_of sort_events sort event_leb event_kind_order push source_entry source_return
    source_sample enter leave finish finish_sources invalidate_all emit_all emit emit_known
    emit_samples emit_sample append_sample intern id_of close_active rebuild_threads ascending dedup
    start_profile frames frame_at file_address symbol_at addresses_of frames_discrete
captured_accepted = refl

-- At these times the two invocations of `captured` were active.
abbrev pub border : ℕ → ℕ
border id = if id == 1 then 25 else 45

at_thread :
    (e : Event)
    → e.tid ≡ 10
    → (e.kind ≡ 1 → e.timestamp_ns ≤ border e.invocation_id)
    → (e.kind ≡ 2 → border e.invocation_id ≤ e.timestamp_ns)
    → IsConsistent (λ id. 10) border e
at_thread e same entered returned = record {
  on_thread = λ other. same;
  entered = entered;
  returned = returned;
}

pub captured-IsConsistent : All (IsConsistent (λ id. 10) border) captured.events
captured-IsConsistent = (
  at_thread _ refl (λ e. omega (arith, e)) (λ e. omega arith),
  (
    at_thread _ refl (λ e. omega (arith, e)) (λ e. omega (arith, e)),
    (
      at_thread _ refl (λ e. omega arith) (λ e. omega (arith, e)),
      (at_thread _ refl (λ e. omega arith) (λ e. omega (arith, e)), tt),
    ),
  ),
)

replay-IsWellFormed_example : IsWellFormed (replay in_order in_order captured)
replay-IsWellFormed_example =
    replay-IsWellFormed in_order (λ is. Perm.rfl) in_order (λ as'. Perm.rfl) captured (λ id. 10)
      border captured-IsConsistent (omega arith)

replay_order_example : replay in_order in_order captured ≡ replay reverse reverse captured
replay_order_example =
    replay_order in_order reverse (λ is. Perm.rfl) reverse_perm in_order reverse (λ as'. Perm.rfl)
      reverse_perm captured

-- Two invocations of two threads, interleaved.
abbrev interleaved : List CollectorEvent
interleaved =
    entry (some 1) 1 10 20
    ∷ entry (some 2) 1 11 21
    ∷ sample (some 1) 10 25 0 on_cpu 7 []
    ∷ return (some 2) 1 11 30
    ∷ return (some 1) 1 10 40
    ∷ []

abbrev at_start : State
at_start = (default, start_profile captured)

push_all-history_example :
    get 2 (push_all at_start interleaved).0.source_invocations
    ≡ history (select (concerns 2) interleaved) (get 2 at_start.0.source_invocations)
push_all-history_example = push_all-history 2 at_start interleaved
