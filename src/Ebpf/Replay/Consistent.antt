-- ===== src/Ebpf/Replay/Consistent.antt =====
-- Records of the ring buffer that are consistent, and the events of the correlator that they are.
use mathlib.Core.List.{Nodup-nil}
use slice.Base.{
  All-reverse, ℕ, ◌+◌, ◌≤◌, ◌≡◌, ◌≢◌, refl, sym, subst, ◌∙◌, true, Option, none, some, List, [],
  ◌∷◌, All, map, any, length, Bool-cases, Option-cases, inl, inr, ◌==◌, ==_iff, not, arith,
}
use slice.Collector.{CollectorEvent, State, default}
use slice.Collector.Fits.{Plan, EventFits, FrameFits, IsCollecting}
use slice.Collector.Fits.Push.{push-IsCollecting, quality-IsCollecting}
use slice.Core.Profile.{Frame}
use slice.Data.Sort.{sort, sort-All, length-sort}
use slice.Data.Words.{sat_add}
use slice.Ebpf.Events.{Event, event_leb, sort_events}
use slice.Ebpf.Replay.{
  Captured, event_of, replay_event, replay_events, start_profile, off_cpu_frames, is_selected,
  addresses_of,
}
use slice.Ebpf.Resolver.{Resolver, frames, frame_at}

-- What the BPF program promises of a record: the events of one invocation are on one thread, and
-- its entry is not later, and its return not earlier, than a time at which it was active.
pub record IsConsistent (tid_of border : ℕ → ℕ) (e : Event) : Type 0 where
  pub on_thread : e.kind ≢ 4 → e.tid ≡ tid_of e.invocation_id
  pub entered : e.kind ≡ 1 → e.timestamp_ns ≤ border e.invocation_id
  pub returned : e.kind ≡ 2 → border e.invocation_id ≤ e.timestamp_ns

module _ (c : Captured) (tid_of border : ℕ → ℕ) where
  abbrev pub plan : Plan
  plan = record { function = c.function; tid_of = tid_of; border = border }

  frames_at-FrameFits :
      (r : Resolver) (addresses : List ℕ) → All (FrameFits plan) (map (frame_at r) addresses)
  unfolding frame_at
  frames_at-FrameFits r [] = tt
  frames_at-FrameFits r (a ∷ addresses) = ((λ id e. cc), frames_at-FrameFits r addresses)

  frames-FrameFits : (r : Resolver) (addresses : List ℕ) → All (FrameFits plan) (frames r addresses)
  unfolding frames
  frames-FrameFits r addresses =
      All-reverse (FrameFits plan) (map (frame_at r) addresses) [] (frames_at-FrameFits r addresses)
        tt

  off_cpu_frames-FrameFits :
      (fs : List Frame)
      → All (FrameFits plan) fs
      → All (FrameFits plan) (off_cpu_frames c.function fs)
  unfolding off_cpu_frames
  off_cpu_frames-FrameFits fs fit = elim (Bool-cases (not (any (is_selected c.function) fs))) [
    | inl e ↦ rw (e, off_cpu_frames) ((λ id same. cc), fit)
    | inr e ↦ rw (e, off_cpu_frames) fit
  ]

  abbrev EachFits : Option CollectorEvent → Type 0
  EachFits none = Unit
  EachFits (some event) = EventFits plan event

  event_of-EachFits : (e : Event) → IsConsistent tid_of border e → EachFits (event_of c e)
  unfolding event_of
  event_of-EachFits e h =
      let stack_fits = frames-FrameFits c.resolver (addresses_of c.stacks e.stack_id) in
      let here : (k : ℕ) → (e.kind == k) ≡ true → k ≢ 4 → e.tid ≡ tid_of e.invocation_id =
        λ k same other.
          h.on_thread (λ violates. other (sym ((==_iff e.kind k).0 same) ∙ violates)) in
      elim (Bool-cases (e.kind == 1)) [
        | inl k ↦ rw k (refl, here 1 k (λ x. omega (arith, x)), h.entered ((==_iff e.kind 1).0 k))
        | inr k ↦ elim (Bool-cases (e.kind == 2)) [
          | inl k' ↦
              rw (k, k')
                (refl, here 2 k' (λ x. omega (arith, x)), h.returned ((==_iff e.kind 2).0 k'))
          | inr k' ↦ elim (Bool-cases (e.kind == 3)) [
            | inl j ↦ rw (k, k', j) (here 3 j (λ x. omega (arith, x)), stack_fits)
            | inr j ↦ elim (Bool-cases (e.kind == 4)) [
              | inl j' ↦ rw (k, k', j, j') tt
              | inr j' ↦ elim (Bool-cases (e.kind == 5)) [
                | inl l ↦
                    rw (k, k', j, j', l)
                      (here 5 l (λ x. omega (arith, x)), off_cpu_frames-FrameFits _ stack_fits)
                | inr l ↦ rw (k, k', j, j', l) tt
              ]
            ]
          ]
        ]
      ]

  replay_event-IsCollecting :
      (n : ℕ) (s : State) (e : Event)
      → IsConsistent tid_of border e
      → IsCollecting plan n s
      → IsCollecting plan (n + 1) (replay_event c s e)
  unfolding replay_event
  replay_event-IsCollecting n (k, p) e h collecting = elim (Option-cases (event_of c e)) [
    | inl unknown ↦
        rw (unknown, replay_event)
          (quality-IsCollecting plan n k p k.source_violations
            (λ q. record q { events_dropped = sat_add q.events_dropped 1 }) (omega arith)
            collecting)
    | inr (event, known) ↦
        let fits : EventFits plan event = subst EachFits known (event_of-EachFits e h) in
        rw (known, replay_event) (push-IsCollecting plan n (k, p) event fits collecting)
  ]

  replay_events-IsCollecting :
      (n : ℕ) (s : State) (es : List Event)
      → All (IsConsistent tid_of border) es
      → IsCollecting plan n s
      → IsCollecting plan (length es + n) (replay_events c s es)
  unfolding replay_events
  replay_events-IsCollecting n s [] a h =
      let same : n ≡ 0 + n = omega arith in subst (λ m. IsCollecting plan m s) same h
  replay_events-IsCollecting n s (e ∷ es) a h =
      let rest =
        replay_events-IsCollecting (n + 1) (replay_event c s e) es a.1
          (replay_event-IsCollecting n s e a.0 h) in
      let same : length es + (n + 1) ≡ length (e ∷ es) + n = omega arith in
      subst (λ m. IsCollecting plan m (replay_events c (replay_event c s e) es)) same rest

  start-IsCollecting : IsCollecting plan 0 (default, start_profile c)
  unfolding start_profile
  start-IsCollecting = record {
    no_active = refl;
    first_stack = refl;
    no_stack_ids = refl;
    sources = record { entries = tt; distinct = Nodup-nil };
    blank = record {
      version = refl;
      one_function = refl;
      no_invocations = refl;
      no_stacks = refl;
      no_samples = refl;
    };
    bounded = omega arith;
    counted = omega arith;
  }

  -- After all records, in the order of `sort_events`.
  pub sorted-IsCollecting :
      All (IsConsistent tid_of border) c.events
      → IsCollecting plan
          (length c.events)
          (replay_events c (default, start_profile c) (sort_events c.events))
  unfolding sort_events
  sorted-IsCollecting a =
      let same : length (sort event_leb c.events) + 0 ≡ length c.events =
        omega (arith, length-sort event_leb c.events) in
      subst
        (λ m.
          IsCollecting plan m
            (replay_events c (default, start_profile c) (sort event_leb c.events)))
        same
        (replay_events-IsCollecting 0 _ (sort event_leb c.events)
          (sort-All event_leb (IsConsistent tid_of border) c.events a) start-IsCollecting)
