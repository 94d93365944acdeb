-- ===== src/Core/Validate/Spec.antt =====
-- What a well-formed profile is, said without the code of `validate`.
use slice.Base.{ℕ, ◌≡◌, ◌≤◌, not, ◌||◌, some, List, map, Mem, Nodup, All, length, select}
use slice.Core.Profile.{Profile, Invocation, Sample, Frame}
use slice.Core.Validate.{parents, is_complete}
use slice.Core.Validate.Ancestry.{IsRooted}

abbrev pub function_ids : Profile → List ℕ
function_ids p = map (λ f. f.id) p.functions

abbrev pub thread_ids : Profile → List ℕ
thread_ids p = map (λ t. t.tid) p.threads

abbrev pub invocation_ids : Profile → List ℕ
invocation_ids p = map (λ i. i.id) p.invocations

abbrev pub stack_ids : Profile → List ℕ
stack_ids p = map (λ s. s.id) p.stacks

pub record IsSoundInvocation (p : Profile) (i : Invocation) : Type 0 where
  pub known_function : Mem i.function_id (function_ids p)
  pub known_thread : Mem i.tid (thread_ids p)
  pub ordered : i.start_ns ≤ i.end_ns
  pub known_parent : (q : ℕ) → i.parent_id ≡ some q → Mem q (invocation_ids p)
  pub rooted : IsRooted (parents p.invocations) i.id

abbrev pub IsSoundFrame : Profile → Frame → Type 0
IsSoundFrame p f = (id : ℕ) → f.function_id ≡ some id → Mem id (function_ids p)

-- The sample was taken on the thread of its invocation and within it.
abbrev pub TakenIn : Sample → Invocation → Type 0
TakenIn s i =
    (i.id ≡ s.invocation_id)
    × (s.tid ≡ i.tid)
    × (i.start_ns ≤ s.timestamp_ns)
    × (s.timestamp_ns ≤ i.end_ns)

abbrev pub IsSoundSample : Profile → Sample → Type 0
IsSoundSample p s =
    Mem s.stack_id (stack_ids p) × ((i : Invocation) × Mem i p.invocations × TakenIn s i)

-- The quality counters claim no more than the records show.
pub record IsSoundQuality (p : Profile) : Type 0 where
  pub complete : p.quality.complete_invocations ≤ length (select is_complete p.invocations)
  pub incomplete :
      p.quality.incomplete_invocations
      ≤ length (select (λ i. not i.complete || not i.valid) p.invocations)
  pub generated : length p.samples ≤ p.quality.samples_generated

pub record IsWellFormed (p : Profile) : Type 0 where
  pub version : p.format_version ≡ 1
  pub unique_functions : Nodup (function_ids p)
  pub unique_threads : Nodup (thread_ids p)
  pub unique_invocations : Nodup (invocation_ids p)
  pub unique_stacks : Nodup (stack_ids p)
  pub sound_invocations : All (IsSoundInvocation p) p.invocations
  pub sound_frames : All (λ s. All (IsSoundFrame p) s.frames) p.stacks
  pub sound_samples : All (IsSoundSample p) p.samples
  pub sound_quality : IsSoundQuality p
