-- ===== src/Collector/Fits.antt =====
-- Events that fit together: those of one invocation name one thread, its entries come no later than
-- its returns, and all are of one function. And the source invocations that such events make.
pub mod Entries
pub mod Push
pub mod Emission
pub mod Finish
pub mod Drain
pub mod Outcome
use slice.Base.{
  ℕ, ◌+◌, ◌≤◌, ◌≡◌, ◌≢◌, Option, none, some, List, [], ◌∷◌, All, Nodup, Mem, length, min,
}
use slice.Collector.{
  State, SourceInvocation, PendingSample, CollectorEvent, entry, return, violation, sample,
  dropped_events, dropped_samples,
}
use slice.Core.Profile.{Profile, Function, Frame}
use slice.Data.Maps.{keys, values}
use slice.Data.Words.{u64_max}

-- How the pending samples add up.
abbrev pub pending : List SourceInvocation → ℕ
pending [] = 0
pending (i ∷ is) = length i.samples + pending is

-- The function that is captured, the thread of each invocation, and a time at which it was active.
pub record Plan : Type 0 where
  pub function : Function
  pub tid_of : ℕ → ℕ
  pub border : ℕ → ℕ

module _ (plan : Plan) where
  abbrev pub FrameFits : Frame → Type 0
  FrameFits f = (id : ℕ) → f.function_id ≡ some id → id ≡ plan.function.id

  abbrev pub SampleFits : ℕ → PendingSample → Type 0
  SampleFits id x = (x.tid ≡ plan.tid_of id) × All FrameFits x.frames

  -- An event fits if it has the id of an invocation, and its thread, function and time are right.
  abbrev pub EventFits : CollectorEvent → Type 0
  EventFits (entry none f tid t) = ⊥
  EventFits (entry (some id) f tid t) =
      (f ≡ plan.function.id) × (tid ≡ plan.tid_of id) × (t ≤ plan.border id)
  EventFits (return none f tid t) = ⊥
  EventFits (return (some id) f tid t) =
      (f ≡ plan.function.id) × (tid ≡ plan.tid_of id) × (plan.border id ≤ t)
  EventFits (violation tid t) = Unit
  EventFits (sample none tid t cpu st w fs) = ⊥
  EventFits (sample (some id) tid t cpu st w fs) = (tid ≡ plan.tid_of id) × All FrameFits fs
  EventFits (dropped_events n) = Unit
  EventFits (dropped_samples n) = Unit

  pub record SourceFits (key : ℕ) (i : SourceInvocation) : Type 0 where
    pub same_id : i.id ≡ key
    pub same_tid : i.tid ≡ plan.tid_of key
    pub same_function : (f : ℕ) → i.function_id ≡ some f → f ≡ plan.function.id
    pub starts : (t : ℕ) → i.start_ns ≡ some t → t ≤ plan.border key
    pub ends : (t : ℕ) → i.end_ns ≡ some t → plan.border key ≤ t
    pub samples_fit : All (SampleFits key) i.samples

  -- The map of source invocations: each fits its key, and no key comes twice.
  pub record MapFits (m : List (ℕ × SourceInvocation)) : Type 0 where
    pub entries : All (λ (k, i). SourceFits k i) m
    pub distinct : Nodup (keys m)

  -- A profile in which nothing is recorded yet.
  pub record IsBlank (p : Profile) : Type 0 where
    pub version : p.format_version ≡ 1
    pub one_function : p.functions ≡ plan.function ∷ []
    pub no_invocations : p.invocations ≡ []
    pub no_stacks : p.stacks ≡ []
    pub no_samples : p.samples ≡ []

  -- The state between the events, with a bound on the pending samples.
  pub record IsCollecting (n : ℕ) (s : State) : Type 0 where
    pub no_active : s.0.active ≡ []
    pub first_stack : s.0.next_stack_id ≡ 1
    pub no_stack_ids : s.0.stack_ids ≡ []
    pub sources : MapFits s.0.source_invocations
    pub blank : IsBlank s.1
    pub bounded : pending (values s.0.source_invocations) ≤ n
    pub counted :
        min (pending (values s.0.source_invocations)) u64_max ≤ s.1.quality.samples_generated
