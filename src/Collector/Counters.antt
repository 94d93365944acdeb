-- ===== src/Collector/Counters.antt =====
-- The quality counters of the correlator against the invocations that it records.
pub mod Finish
use slice.Base.{
  ℕ, ◌+◌, ◌≡◌, refl, Bool, true, false, not, ◌&&◌, ◌||◌, Option, none, some, List, [], ◌∷◌, ◌++◌,
  select, length, min, if◌then◌else◌, arith, Bool-cases, Option-cases, inl, inr, leb, ◌==◌, ltb,
  max,
}
use slice.Collector.{
  State, ActiveInvocation, PendingSample, CollectorEvent, entry, return, violation, sample,
  dropped_events, dropped_samples, with_quality, count_complete, count_incomplete, count_mismatch,
}
use slice.Collector.Push.{
  push, push_all, displace, conclude, local_entry, local_return, local_violation, local_sample,
  close, add_invocation,
}
use slice.Collector.Stacks.{append_sample, intern, id_of}
use slice.Core.Profile.{Profile, Invocation, Frame}
use slice.Core.Validate.{is_complete}
use slice.Data.Maps.{get}
use slice.Data.Words.{u64_max, sat_add}

abbrev pub is_incomplete : Invocation → Bool
is_incomplete i = not i.complete || not i.valid

-- Both counters are the numbers of such records, capped at the largest `u64`.
pub record IsCounted (p : Profile) : Type 0 where
  pub complete :
      p.quality.complete_invocations ≡ min (length (select is_complete p.invocations)) u64_max
  pub incomplete :
      p.quality.incomplete_invocations ≡ min (length (select is_incomplete p.invocations)) u64_max

length-select-snoc :
    (test : Invocation → Bool) (is : List Invocation) (i : Invocation)
    → length (select test (is ++ i ∷ [])) ≡ length (select test is) + (if test i then 1 else 0)
length-select-snoc test [] i = elim (Bool-cases (test i)) [
  | inl e ↦ rw e (omega arith)
  | inr e ↦ rw e (omega arith)
]
length-select-snoc test (j ∷ is) i =
    let rest = length-select-snoc test is i in
    elim (Bool-cases (test j)) [
      | inl e ↦ rw e (omega (arith, rest))
      | inr e ↦ rw e (omega (arith, rest))
    ]

-- A record that is complete and valid goes with the one counter, any other with the other.
pub count_complete-IsCounted :
    (p : Profile) (i : Invocation)
    → is_complete i ≡ true
    → IsCounted p
    → IsCounted (with_quality count_complete (add_invocation i p))
count_complete-IsCounted p i e c =
    let a = length-select-snoc is_complete p.invocations i in
    let b = length-select-snoc is_incomplete p.invocations i in
    let other : is_incomplete i ≡ false = ground arith in
    let a' = rw e at a in
    let b' = rw other at b in
    record {
      complete = omega (arith, c.complete, a');
      incomplete = omega (arith, c.incomplete, b');
    }

pub count_incomplete-IsCounted :
    (p : Profile) (i : Invocation)
    → is_complete i ≡ false
    → IsCounted p
    → IsCounted (with_quality count_incomplete (add_invocation i p))
count_incomplete-IsCounted p i e c =
    let a = length-select-snoc is_complete p.invocations i in
    let b = length-select-snoc is_incomplete p.invocations i in
    let other : is_incomplete i ≡ true = ground arith in
    let a' = rw e at a in
    let b' = rw other at b in
    record {
      complete = omega (arith, c.complete, a');
      incomplete = omega (arith, c.incomplete, b');
    }

-- The counters and the records stay the same where a sample is added.
intern-same :
    (s : State) (frames : List Frame)
    → ((intern s frames).1.1.invocations ≡ s.1.invocations)
      × ((intern s frames).1.1.quality ≡ s.1.quality)
unfolding intern
intern-same (c, p) frames = elim (Option-cases (id_of frames c.stack_ids)) [
  | inl e ↦ rw (e, intern) (refl, refl)
  | inr (id, e) ↦ rw (e, intern) (refl, refl)
]

pub append_sample-IsCounted :
    (s : State) (id : ℕ) (x : PendingSample) → IsCounted s.1 → IsCounted (append_sample s id x).1
unfolding append_sample
append_sample-IsCounted s id x c =
    let (a, b) = intern-same s x.frames in
    record { complete = rw (a, b) c.complete; incomplete = rw (a, b) c.incomplete }

displace-IsCounted :
    (o : Option ActiveInvocation) (tid timestamp_ns : ℕ) (p : Profile)
    → IsCounted p
    → IsCounted (displace o tid timestamp_ns p)
unfolding displace
displace-IsCounted none tid timestamp_ns p c = c
displace-IsCounted (some a) tid timestamp_ns p c =
    let i = close a tid (max timestamp_ns a.start_ns) false false in
    let r = count_incomplete-IsCounted p i refl c in
    record { complete = r.complete; incomplete = r.incomplete }

conclude-IsCounted :
    (o : Option ActiveInvocation) (function_id tid timestamp_ns : ℕ) (p : Profile)
    → IsCounted p
    → IsCounted (conclude o function_id tid timestamp_ns p)
unfolding conclude
conclude-IsCounted none function_id tid timestamp_ns p c = record {
  complete = c.complete;
  incomplete = c.incomplete;
}
conclude-IsCounted (some a) function_id tid timestamp_ns p c =
    let valid = a.valid && ((a.function_id == function_id) && leb a.start_ns timestamp_ns) in
    let i = close a tid timestamp_ns true valid in
    elim (Bool-cases valid) [
      | inl e ↦
          let r = count_complete-IsCounted p i e c in
          let k = r.complete in
          rw e (record { complete = rw e at r.complete; incomplete = rw e at r.incomplete })
      | inr e ↦
          let r = count_incomplete-IsCounted p i e c in
          rw e (record { complete = rw e at r.complete; incomplete = rw e at r.incomplete })
    ]

local_violation-IsCounted :
    (s : State) (tid timestamp_ns : ℕ)
    → IsCounted s.1
    → IsCounted (local_violation s tid timestamp_ns).1
unfolding local_violation
local_violation-IsCounted (c, p) tid timestamp_ns h = elim (Option-cases (get tid c.active)) [
  | inl e ↦ rw (e, local_violation) (record { complete = h.complete; incomplete = h.incomplete })
  | inr (a, e) ↦ elim (Bool-cases (ltb timestamp_ns a.start_ns)) [
    | inl l ↦
        rw (e, l, local_violation) (record { complete = h.complete; incomplete = h.incomplete })
    | inr l ↦
        rw (e, l, local_violation) (record { complete = h.complete; incomplete = h.incomplete })
  ]
]

local_sample-IsCounted :
    (s : State) (x : PendingSample) → IsCounted s.1 → IsCounted (local_sample s x).1
unfolding local_sample
local_sample-IsCounted (c, p) x h = elim (Option-cases (get x.tid c.active)) [
  | inl e ↦ rw (e, local_sample) h
  | inr (a, e) ↦ elim (Bool-cases a.valid) [
    | inl v ↦ rw (e, v, local_sample) (append_sample-IsCounted (c, p) a.id x h)
    | inr v ↦ rw (e, v, local_sample) h
  ]
]

-- Counters other than these two do not matter.
pub recount :
    (p q : Profile)
    → IsCounted p
    → p.invocations ≡ q.invocations
    → p.quality.complete_invocations ≡ q.quality.complete_invocations
    → p.quality.incomplete_invocations ≡ q.quality.incomplete_invocations
    → IsCounted q
recount p q c i a b = record {
  complete = rw (i, a) at c.complete;
  incomplete = rw (i, b) at c.incomplete;
}

pub push-IsCounted : (s : State) (e : CollectorEvent) → IsCounted s.1 → IsCounted (push s e).1
unfolding push local_entry local_return
push-IsCounted (c, p) (entry none f tid t) h =
    displace-IsCounted (get tid c.active) tid t _ (recount p _ h refl refl refl)
push-IsCounted (c, p) (entry (some id) f tid t) h = recount p _ h refl refl refl
push-IsCounted (c, p) (return none f tid t) h =
    conclude-IsCounted (get tid c.active) f tid t _ (recount p _ h refl refl refl)
push-IsCounted (c, p) (return (some id) f tid t) h = recount p _ h refl refl refl
push-IsCounted (c, p) (violation tid t) h =
    local_violation-IsCounted _ tid t (recount p _ h refl refl refl)
push-IsCounted (c, p) (sample none tid t cpu st w fs) h =
    local_sample-IsCounted _ _ (recount p _ h refl refl refl)
push-IsCounted (c, p) (sample (some id) tid t cpu st w fs) h = recount p _ h refl refl refl
push-IsCounted (c, p) (dropped_events n) h = recount p _ h refl refl refl
push-IsCounted (c, p) (dropped_samples n) h = recount p _ h refl refl refl

pub push_all-IsCounted :
    (s : State) (es : List CollectorEvent) → IsCounted s.1 → IsCounted (push_all s es).1
unfolding push_all
push_all-IsCounted s [] h = h
push_all-IsCounted s (e ∷ es) h = push_all-IsCounted (push s e) es (push-IsCounted s e h)
