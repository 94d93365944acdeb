-- ===== src/Collector/Histories.antt =====
-- crates/slice-collector/src/lib.rs: source mode seen from one invocation, which depends on no event
-- but its own.
use slice.Base.{
  ℕ, ◌≡◌, refl, ap, ◌∙◌, Bool, false, Option, none, some, List, [], ◌∷◌, select, Bool-cases,
  Option-cases, arith, inl, inr, ◌==◌, ==_iff, if◌then◌else◌,
}
use slice.Collector.{
  State, SourceInvocation, PendingSample, CollectorEvent, entry, return, violation, sample,
  dropped_events, dropped_samples,
}
use slice.Collector.Push.{push, push_all, local_entry, local_return, local_violation, local_sample}
use slice.Collector.Source.{unseen, enter, leave, pend, source_entry, source_return, source_sample}
use slice.Collector.Stacks.{append_sample, intern, id_of}
use slice.Data.Maps.{get, update_or_insert}

abbrev value_or : SourceInvocation → Option SourceInvocation → SourceInvocation
value_or i none = i
value_or i (some j) = j

-- An invocation, or that nothing is known of it, after one of its own events.
abbrev pub step : CollectorEvent → Option SourceInvocation → Option SourceInvocation
step (entry (some id) f tid t) o =
    some (enter f tid t (value_or (unseen id tid (some f) (some t) none) o))
step (return (some id) f tid t) o =
    some (leave f tid t (value_or (unseen id tid (some f) none (some t)) o))
step (sample (some id) tid t cpu state w frames) o = some (
    pend
      (record {
        tid = tid;
        timestamp_ns = t;
        cpu = cpu;
        state = state;
        weight_ns = w;
        frames = frames;
      })
      (value_or (unseen id tid none none none) o))
step _ o = o

-- Does the event name the invocation?
abbrev pub concerns : ℕ → CollectorEvent → Bool
concerns id (entry (some k) f tid t) = k == id
concerns id (return (some k) f tid t) = k == id
concerns id (sample (some k) tid t cpu state w frames) = k == id
concerns id _ = false

-- The history of one invocation: its own events, one after the other.
abbrev pub history : List CollectorEvent → Option SourceInvocation → Option SourceInvocation
history [] o = o
history (e ∷ es) o = history es (step e o)

get-update :
    (key id : ℕ) (v : SourceInvocation) (f : SourceInvocation → SourceInvocation)
    (m : List (ℕ × SourceInvocation))
    → get id (update_or_insert key v f m)
      ≡ (if key == id then some (f (value_or v (get id m))) else get id m)
get-update key id v f [] = refl
get-update key id v f ((k, i) ∷ m) =
    let rest = get-update key id v f m in
    elim (Bool-cases (k == key)) [
      | inl e ↦
          let same : (k == id) ≡ (key == id) = ap (λ z. z == id) ((==_iff k key).0 e) in
          rw (e, same) (elim (Bool-cases (key == id)) [ inl e' ↦ rw e' refl | inr e' ↦ rw e' refl ])
      | inr e ↦ elim (Bool-cases (k == id)) [
        | inl e' ↦ let other : (key == id) ≡ false = ground (arith, e, e') in rw (e, e', other) refl
        | inr e' ↦ rw (e, e') rest
      ]
    ]

-- What no event does without an id: change a source invocation.
append_sample_sources :
    (s : State) (id : ℕ) (x : PendingSample)
    → (append_sample s id x).0.source_invocations ≡ s.0.source_invocations
unfolding append_sample intern
append_sample_sources (c, p) id x = elim (Option-cases (id_of x.frames c.stack_ids)) [
  | inl unknown ↦ rw (unknown, append_sample, intern) refl
  | inr (k, known) ↦ rw (known, append_sample, intern) refl
]

local_sample_sources :
    (s : State) (x : PendingSample)
    → (local_sample s x).0.source_invocations ≡ s.0.source_invocations
unfolding local_sample
local_sample_sources (c, p) x = elim (Option-cases (get x.tid c.active)) [
  | inl idle ↦ rw (idle, local_sample) refl
  | inr (a, active) ↦ elim (Bool-cases a.valid) [
    | inl e ↦ simp (active, e, local_sample) (append_sample_sources (c, p) a.id x)
    | inr e ↦ simp (active, e, local_sample) refl
  ]
]

local_violation_sources :
    (s : State) (tid t : ℕ)
    → (local_violation s tid t).0.source_invocations ≡ s.0.source_invocations
unfolding local_violation
local_violation_sources (c, p) tid t = elim (Option-cases (get tid c.active)) [
  | inl idle ↦ rw (idle, local_violation) refl
  | inr (a, active) ↦ rw (active, local_violation) refl
]

-- One event changes the invocation that it names, by its step, and no other.
push-step :
    (id : ℕ) (s : State) (e : CollectorEvent)
    → get id (push s e).0.source_invocations ≡ (
        if concerns id e
        then step e (get id s.0.source_invocations)
        else get id s.0.source_invocations)
unfolding push source_entry source_return source_sample local_entry local_return
push-step id (c, p) (entry none f tid t) = refl
push-step id (c, p) (entry (some k) f tid t) =
    get-update k id (unseen k tid (some f) (some t) none) (enter f tid t) c.source_invocations
push-step id (c, p) (return none f tid t) = refl
push-step id (c, p) (return (some k) f tid t) =
    get-update k id (unseen k tid (some f) none (some t)) (leave f tid t) c.source_invocations
push-step id (c, p) (violation tid t) = ap (get id) (local_violation_sources _ tid t)
push-step id (c, p) (sample none tid t cpu st w fs) = ap (get id) (local_sample_sources _ _)
push-step id (c, p) (sample (some k) tid t cpu st w fs) =
    get-update k id (unseen k tid none none none)
      (pend
        record { tid = tid; timestamp_ns = t; cpu = cpu; state = st; weight_ns = w; frames = fs })
      c.source_invocations
push-step id (c, p) (dropped_events n) = refl
push-step id (c, p) (dropped_samples n) = refl

-- However the events of the invocations are interleaved, what the correlator holds of one of them
-- after all events is the history of its own events alone, and nothing if it was named by none.
pub push_all-history :
    (id : ℕ) (s : State) (es : List CollectorEvent)
    → get id (push_all s es).0.source_invocations
      ≡ history (select (concerns id) es) (get id s.0.source_invocations)
unfolding push_all
push_all-history id s [] = refl
push_all-history id s (e ∷ es) =
    let first = push-step id s e in
    push_all-history id (push s e) es ∙ elim (Bool-cases (concerns id e)) [
      | inl own ↦ rw own (ap (history (select (concerns id) es)) (rw own at first))
      | inr other ↦ rw other (ap (history (select (concerns id) es)) (rw other at first))
    ]
