-- ===== src/Tests/Profiles.antt =====
-- `validate` and its loop at concrete profiles.
use slice.Base.{◌≡◌, ◌↔◌, refl, Bool, some, [], ◌∷◌, ok, err}
use slice.Core.Validate.{
  validate, unique_ids, check_invocation, check_parent, check_ancestry, ancestry_repeats,
  ancestry_fuel, check_frame, check_sample, check_sample_in, check_quality,
  cyclic_invocation_parent, unknown_thread,
}
use slice.Core.Validate.Ancestry.{ancestry_fuel_suffices}
use slice.Core.Validate.Decides.{validate-iff-IsWellFormed}
use slice.Core.Validate.Spec.{IsWellFormed}
use slice.Tests.Data.{two_threads}

validate-two_threads : validate two_threads ≡ ok tt
unfolding validate unique_ids check_invocation check_parent check_ancestry ancestry_repeats
    check_frame check_sample check_sample_in check_quality
validate-two_threads = refl

-- A profile that names a thread which it does not list.
validate_unlisted : validate (record two_threads { threads = [] }) ≡ err (unknown_thread 10)
unfolding validate unique_ids check_invocation
validate_unlisted = refl

pub two_threads-IsWellFormed : IsWellFormed two_threads
two_threads-IsWellFormed = (validate-iff-IsWellFormed two_threads).0 validate-two_threads

validate-iff-IsWellFormed_example : (validate two_threads ≡ ok tt) ↔ IsWellFormed two_threads
validate-iff-IsWellFormed_example = validate-iff-IsWellFormed two_threads

-- Two invocations that are each other's parent.
cycle_found : check_ancestry ((1, some 2) ∷ (2, some 1) ∷ []) 1 ≡ err (cyclic_invocation_parent 1)
unfolding check_ancestry ancestry_repeats
cycle_found = refl

ancestry_fuel_suffices_example :
    (b : Bool) × (ancestry_repeats
        (ancestry_fuel ((1, some 2) ∷ (2, some 1) ∷ []))
        ((1, some 2) ∷ (2, some 1) ∷ [])
        []
        (some 1)
      ≡ some b)
ancestry_fuel_suffices_example = ancestry_fuel_suffices ((1, some 2) ∷ (2, some 1) ∷ []) 1
