-- ===== src/Ebpf/Replay/Order.antt =====
-- `capture_pid` finishes with a correlator that is in source mode alone, so that the random order of
-- its hash maps does not show in the profile.
use mathlib.Core.List.{Perm, Nodup-nil}
use slice.Base.{
  ℕ, ◌*◌, max, length, ◌≡◌, refl, subst, ap, Bool, true, false, Option, none, some, List, [], ◌∷◌,
  map, Bool-cases, Option-cases, inl, inr, ◌==◌, arith,
}
use slice.Collector.{
  State, SourceInvocation, ActiveInvocation, CollectorEvent, entry, return, violation, sample,
  dropped_events, dropped_samples, default, Correlator, with_quality,
}
use slice.Collector.Fits.Entries.{update-Nodup}
use slice.Collector.Order.{IsKeyed, finish_order}
use slice.Collector.Push.{push, local_violation}
use slice.Collector.Source.{unseen, enter, leave, pend, source_entry, source_return, source_sample}
use slice.Core.Profile.{Profile}
use slice.Data.Maps.{get, keys, values, update_or_insert}
use slice.Ebpf.Events.{Event, sort_events}
use slice.Ebpf.Replay.{
  Captured, event_of, replay_event, replay_events, replay, start_profile, rebuild_threads,
}

record IsIdle (s : State) : Type 0 where
  idle : s.0.active ≡ []
  keyed : IsKeyed s.0.source_invocations

-- An update keeps the ids if its function does.
module _ (key : ℕ) (v : SourceInvocation) (f : SourceInvocation → SourceInvocation)
    (new : v.id ≡ key) (keep : (i : SourceInvocation) → (f i).id ≡ i.id) where
  update_ids :
      (m : List (ℕ × SourceInvocation))
      → map (λ i. i.id) (values m) ≡ keys m
      → map (λ i. i.id) (values (update_or_insert key v f m)) ≡ keys (update_or_insert key v f m)
  update_ids [] h = cc (keep v, new)
  update_ids ((k, i) ∷ m) h = elim (Bool-cases (k == key)) [
    | inl e ↦ rw e (cc (keep i, h))
    | inr e ↦ rw e (let rest = update_ids m (cc (h)) in cc (h, rest))
  ]

  update-IsIdle :
      (c : Correlator) (p q : Profile)
      → IsIdle (c, p)
      → IsIdle (
        record c {
          source_mode = true;
          source_invocations = update_or_insert key v f c.source_invocations;
        },
        q,
      )
  update-IsIdle c p q h = record {
    idle = h.idle;
    keyed = record {
      same_ids = update_ids c.source_invocations h.keyed.same_ids;
      distinct = update-Nodup key v f c.source_invocations h.keyed.distinct;
    };
  }

enter_id : (f tid t : ℕ) (i : SourceInvocation) → (enter f tid t i).id ≡ i.id
unfolding enter
enter_id f tid t i = elim (Bool-cases i.saw_entry) [
  | inl e ↦ rw (e, enter) refl
  | inr e ↦ rw (e, enter) refl
]

leave_id : (f tid t : ℕ) (i : SourceInvocation) → (leave f tid t i).id ≡ i.id
unfolding leave
leave_id f tid t i = refl

-- Does the event belong to source mode?
abbrev is_source : Option CollectorEvent → Bool
is_source (some (entry none f tid t)) = false
is_source (some (return none f tid t)) = false
is_source (some (sample none tid t cpu st w fs)) = false
is_source _ = true

event_of_source : (c : Captured) (e : Event) → is_source (event_of c e) ≡ true
unfolding event_of
event_of_source c e = ground arith

violation-IsIdle : (s : State) (tid t : ℕ) → IsIdle s → IsIdle (local_violation s tid t)
unfolding local_violation
violation-IsIdle (c, p) tid t h =
    let none_active : get tid c.active ≡ none = ap (get tid) h.idle in
    rw (none_active, local_violation) (record { idle = h.idle; keyed = h.keyed })

push-IsIdle :
    (s : State) (e : CollectorEvent) → is_source (some e) ≡ true → IsIdle s → IsIdle (push s e)
unfolding push source_entry source_return source_sample
push-IsIdle (c, p) (entry none f tid t) e h = absurd (ground arith)
push-IsIdle (c, p) (entry (some id) f tid t) e h =
    update-IsIdle id (unseen id tid (some f) (some t) none) (enter f tid t) refl (enter_id f tid t)
      c p _ h
push-IsIdle (c, p) (return none f tid t) e h = absurd (ground arith)
push-IsIdle (c, p) (return (some id) f tid t) e h =
    update-IsIdle id (unseen id tid (some f) none (some t)) (leave f tid t) refl (leave_id f tid t)
      c p _ h
push-IsIdle (c, p) (violation tid t) e h =
    violation-IsIdle _ tid t (record { idle = h.idle; keyed = h.keyed })
push-IsIdle (c, p) (sample none tid t cpu st w fs) e h = absurd (ground arith)
push-IsIdle (c, p) (sample (some id) tid t cpu st w fs) e h =
    update-IsIdle id (unseen id tid none none none)
      (pend
        (record { tid = tid; timestamp_ns = t; cpu = cpu; state = st; weight_ns = w; frames = fs }))
      refl (λ i. refl) c p _ h
push-IsIdle (c, p) (dropped_events n) e h = record { idle = h.idle; keyed = h.keyed }
push-IsIdle (c, p) (dropped_samples n) e h = record { idle = h.idle; keyed = h.keyed }

replay_events-IsIdle :
    (c : Captured) (s : State) (es : List Event) → IsIdle s → IsIdle (replay_events c s es)
unfolding replay_events replay_event
replay_events-IsIdle c s [] h = h
replay_events-IsIdle c (k, p) (e ∷ es) h =
    replay_events-IsIdle c (replay_event c (k, p) e) es (elim (Option-cases (event_of c e)) [
      | inl unknown ↦ rw (unknown, replay_event) (record { idle = h.idle; keyed = h.keyed })
      | inr (event, known) ↦
          let source = subst (λ o. is_source o ≡ true) known (event_of_source c e) in
          rw (known, replay_event) (push-IsIdle (k, p) event source h)
    ])

-- The profile of a capture does not depend on the order in which the hash maps of the correlator
-- are drained: any two orders in which each entry comes once give the same profile.
pub replay_order :
    (drain drain' : List SourceInvocation → List SourceInvocation)
    → ((is : List SourceInvocation) → Perm (drain is) is)
    → ((is : List SourceInvocation) → Perm (drain' is) is)
    → (iterate iterate' : List ActiveInvocation → List ActiveInvocation)
    → ((as' : List ActiveInvocation) → Perm (iterate as') as')
    → ((as' : List ActiveInvocation) → Perm (iterate' as') as')
    → (c : Captured) → replay drain iterate c ≡ replay drain' iterate' c
unfolding replay
replay_order drain drain' d d' iterate iterate' i i' c =
    let s = replay_events c (default, start_profile c) (sort_events c.events) in
    let h =
      replay_events-IsIdle c (default, start_profile c) (sort_events c.events)
        (record { idle = refl; keyed = record { same_ids = refl; distinct = Nodup-nil } }) in
    ap
      (λ p.
        let r = rebuild_threads p c.thread_names in
        with_quality
          (λ q. record q { events_generated = max q.events_generated (length r.invocations * 2) })
          r)
      (finish_order drain drain' d d' iterate iterate' i i' s c.monotonic_ns h.keyed h.idle)
