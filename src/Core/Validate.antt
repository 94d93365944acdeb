-- ===== src/Core/Validate.antt =====
-- crates/slice-core/src/lib.rs: `Profile::validate`, `unique_u32_ids` and `unique_u64_ids`.
-- The `while` loop over the ancestors of an invocation runs on fuel: one round for each
-- invocation of the profile and two more.
pub mod Ancestry
pub mod Ids
pub mod Spec
pub mod Sound
pub mod Decides
use slice.Base.{
  ℕ, zero, suc, ◌≡◌, Bool, true, false, not, ◌&&◌, ◌||◌, Option, none, some, List, [], ◌∷◌, map,
  length, select, find, contains, ltb, ◌==◌, if◌then◌else◌, Result, ok, err, guard, or_fail,
  for_each, ◌>>=◌, ◌>>◌,
}
use slice.Core.Profile.{
  Profile, Function, Thread, Invocation, Stack, Frame, Sample, CaptureQuality, TimeRange,
}
use slice.Data.Text.{Text, codes}

pub data ProfileValidationError : Type 0 where
  unsupported_version : ℕ → ProfileValidationError
  duplicate_id : (kind : Text) (id : ℕ) → ProfileValidationError
  unknown_function : (record_kind : Text) (id : ℕ) → ProfileValidationError
  unknown_thread : ℕ → ProfileValidationError
  unknown_invocation : ℕ → ProfileValidationError
  cyclic_invocation_parent : ℕ → ProfileValidationError
  unknown_stack : ℕ → ProfileValidationError
  invalid_invocation_bounds : ℕ → ProfileValidationError
  sample_thread_mismatch :
      (sample_invocation sample_tid invocation_tid : ℕ) → ProfileValidationError
  sample_outside_invocation : ℕ → ProfileValidationError
  quality_counters_inconsistent : ProfileValidationError

abbrev pub Checked : Type 0 → Type 0
Checked A = Result ProfileValidationError A

-- The loop of both `unique_*_ids`: `seen` is the set so far, and membership is all that is asked
-- of it. (A `u32` is a `u64` already.)
unfoldable pub unique_ids_from : List ℕ → List ℕ → Text → Checked (List ℕ)
unique_ids_from seen [] kind = ok seen
unique_ids_from seen (id ∷ ids) kind =
    let rest = unique_ids_from (id ∷ seen) ids kind in
    if contains id seen then err (duplicate_id kind id) else rest

unfoldable pub unique_ids : List ℕ → Text → Checked (List ℕ)
unfolding unique_ids_from
unique_ids ids kind = unique_ids_from [] ids kind

-- The map from the id of an invocation to its parent's. The ids are distinct where it is used.
abbrev pub Parents : Type 0
Parents = List (ℕ × Option ℕ)

abbrev pub parent_of : Parents → ℕ → Option ℕ
parent_of [] id = none
parent_of ((i, p) ∷ ps) id = if i == id then p else parent_of ps id

abbrev pub parents : List Invocation → Parents
parents = map λ i. (i.id, i.parent_id)

-- Does the chain of parents from `current` come back to an id in `ancestry` or to one of its own?
-- `none` is the end of the fuel.
unfoldable pub ancestry_repeats : ℕ → Parents → List ℕ → Option ℕ → Option Bool
ancestry_repeats zero ps ancestry current = none
ancestry_repeats (suc fuel) ps ancestry none = some false
ancestry_repeats (suc fuel) ps ancestry (some id) =
    let next = ancestry_repeats fuel ps (id ∷ ancestry) (parent_of ps id) in
    if contains id ancestry then some true else next

abbrev pub ancestry_fuel : Parents → ℕ
ancestry_fuel ps = suc (suc (length ps))

unfoldable pub check_ancestry : Parents → ℕ → Checked (Unit {0})
check_ancestry ps id = elim (ancestry_repeats (ancestry_fuel ps) ps [] (some id)) [
  | none ↦ err (cyclic_invocation_parent id)
  | some repeats ↦ guard (not repeats) (cyclic_invocation_parent id)
]

unfoldable pub check_parent : List ℕ → Option ℕ → Checked (Unit {0})
check_parent invocation_ids none = ok tt
check_parent invocation_ids (some parent_id) =
    guard (contains parent_id invocation_ids) (unknown_invocation parent_id)

-- The body of the `for` over the invocations.
unfoldable pub check_invocation :
    (function_ids thread_ids invocation_ids : List ℕ) → Parents → Invocation → Checked (Unit {0})
check_invocation function_ids thread_ids invocation_ids ps i = do
  guard (contains i.function_id function_ids) (unknown_function (codes "invocation") i.function_id)
  guard (contains i.tid thread_ids) (unknown_thread i.tid)
  guard (not (ltb i.end_ns i.start_ns)) (invalid_invocation_bounds i.id)
  check_parent invocation_ids i.parent_id
  check_ancestry ps i.id

unfoldable pub check_frame : List ℕ → Option ℕ → Checked (Unit {0})
check_frame function_ids none = ok tt
check_frame function_ids (some function_id) =
    guard (contains function_id function_ids) (unknown_function (codes "frame") function_id)

-- What a sample must satisfy against the invocation that it names.
unfoldable pub check_sample_in : Sample → Invocation → Checked (Unit {0})
check_sample_in s i = do
  guard (s.tid == i.tid) (sample_thread_mismatch s.invocation_id s.tid i.tid)
  guard (not (ltb s.timestamp_ns i.start_ns || ltb i.end_ns s.timestamp_ns))
      (sample_outside_invocation s.invocation_id)

-- The body of the `for` over the samples. The `expect` of the source is the `or_fail` here: the
-- test above it has found the id already.
unfoldable pub check_sample :
    (invocation_ids stack_ids : List ℕ) → List Invocation → Sample → Checked (Unit {0})
check_sample invocation_ids stack_ids invocations s = do
  guard (contains s.invocation_id invocation_ids) (unknown_invocation s.invocation_id)
  guard (contains s.stack_id stack_ids) (unknown_stack s.stack_id)
  i ← or_fail (find (λ i. i.id == s.invocation_id) invocations) (unknown_invocation s.invocation_id)
  check_sample_in s i

abbrev pub is_complete : Invocation → Bool
is_complete i = i.complete && i.valid

unfoldable pub check_quality : Profile → Checked (Unit {0})
check_quality p =
    guard
      (not (
        ltb (length (select is_complete p.invocations)) p.quality.complete_invocations
        || (ltb (length (select (λ i. not i.complete || not i.valid) p.invocations))
              p.quality.incomplete_invocations
            || ltb p.quality.samples_generated (length p.samples))))
      quality_counters_inconsistent

unfoldable pub validate : Profile → Checked (Unit {0})
validate p = do
  guard (p.format_version == 1) (unsupported_version p.format_version)
  function_ids ← unique_ids (map (λ f. f.id) p.functions) (codes "function")
  thread_ids ← unique_ids (map (λ t. t.tid) p.threads) (codes "thread")
  invocation_ids ← unique_ids (map (λ i. i.id) p.invocations) (codes "invocation")
  stack_ids ← unique_ids (map (λ s. s.id) p.stacks) (codes "stack")
  for_each p.invocations
      (check_invocation function_ids thread_ids invocation_ids (parents p.invocations))
  for_each p.stacks λ s. for_each s.frames λ f. check_frame function_ids f.function_id
  for_each p.samples (check_sample invocation_ids stack_ids p.invocations)
  check_quality p
