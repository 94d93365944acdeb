-- ===== src/Ebpf/Replay/Counters.antt =====
-- The quality counters of a captured profile.
use slice.Base.{refl, List, [], ◌∷◌, Option-cases, inl, inr, arith}
use slice.Collector.{State, SourceInvocation, ActiveInvocation, default}
use slice.Collector.Counters.{IsCounted, recount, push-IsCounted}
use slice.Collector.Counters.Finish.{finish-IsCounted}
use slice.Ebpf.Events.{Event, sort_events}
use slice.Ebpf.Replay.{
  Captured, event_of, replay_event, replay_events, replay, start_profile, rebuild_threads,
}

replay_event-IsCounted :
    (c : Captured) (s : State) (e : Event) → IsCounted s.1 → IsCounted (replay_event c s e).1
unfolding replay_event
replay_event-IsCounted c (k, p) e h = elim (Option-cases (event_of c e)) [
  | inl unknown ↦ rw (unknown, replay_event) (recount p _ h refl refl refl)
  | inr (event, known) ↦ rw (known, replay_event) (push-IsCounted (k, p) event h)
]

replay_events-IsCounted :
    (c : Captured) (s : State) (es : List Event)
    → IsCounted s.1
    → IsCounted (replay_events c s es).1
unfolding replay_events
replay_events-IsCounted c s [] h = h
replay_events-IsCounted c s (e ∷ es) h =
    replay_events-IsCounted c (replay_event c s e) es (replay_event-IsCounted c s e h)

start_profile-IsCounted : (c : Captured) → IsCounted (start_profile c)
unfolding start_profile
start_profile-IsCounted c = record { complete = omega arith; incomplete = omega arith }

-- Whatever was captured and in whatever order the hash maps are drained, the profile of a capture
-- counts as complete exactly its records that are complete and valid, and as incomplete exactly all
-- others, each number capped at the largest `u64`.
pub replay-IsCounted :
    (drain : List SourceInvocation → List SourceInvocation)
    (iterate : List ActiveInvocation → List ActiveInvocation) (c : Captured)
    → IsCounted (replay drain iterate c)
unfolding replay rebuild_threads
replay-IsCounted drain iterate c =
    let s = replay_events c (default, start_profile c) (sort_events c.events) in
    let h =
      replay_events-IsCounted c (default, start_profile c) (sort_events c.events)
        (start_profile-IsCounted c) in
    recount _ _ (finish-IsCounted drain iterate s c.monotonic_ns h) refl refl refl
