-- ===== src/Cli/Summary.antt =====
-- crates/slice-cli/src/main.rs: `sample_summary` and `validate`.
pub mod Laws
use slice.Base.{
  ℕ, ◌+◌, Bool, true, false, not, ◌&&◌, List, [], ◌∷◌, any, ◌==◌, if◌then◌else◌, Result, ok, err,
  guard, map_err, ◌>>=◌, ◌>>◌,
}
use slice.Core.Envelope.{Codec, ProfileError, from_bytes}
use slice.Core.Profile.{Profile, Sample, ExecutionState}
use slice.Core.Validate.{ProfileValidationError, validate, is_complete}
use slice.Data.Words.{sat_add}

-- The four results of `sample_summary`.
pub record Summary : Type 0 where
  pub on_count : ℕ
  pub off_count : ℕ
  pub on_ns : ℕ
  pub off_ns : ℕ

-- One step of the fold.
unfoldable pub add_to_summary : Summary → Sample → Summary
add_to_summary t s = elim s.state [
  | ExecutionState.on_cpu ↦ record t {
    on_count = t.on_count + 1;
    on_ns = sat_add t.on_ns s.weight_ns;
  }
  | ExecutionState.off_cpu ↦ record t {
    off_count = t.off_count + 1;
    off_ns = sat_add t.off_ns s.weight_ns;
  }
]

unfoldable pub summary_from : Summary → List Sample → Summary
summary_from t [] = t
summary_from t (s ∷ ss) = summary_from (add_to_summary t s) ss

unfoldable pub sample_summary : Profile → Summary
sample_summary p =
    summary_from (record { on_count = 0; off_count = 0; on_ns = 0; off_ns = 0 }) p.samples

pub record Requirements : Type 0 where
  pub require_complete : Bool
  pub require_samples : Bool
  pub require_off_cpu : Bool

pub data CommandError : Type 0 where
  unreadable : ProfileError → CommandError
  validation_failed : ProfileValidationError → CommandError
  no_complete_invocations : CommandError
  no_samples : CommandError
  no_off_cpu_samples : CommandError

abbrev pub is_empty : List Sample → Bool
is_empty [] = true
is_empty (s ∷ ss) = false

-- The three conditions under which `validate` refuses a valid profile.
abbrev pub lacks_complete : Profile → Requirements → Bool
lacks_complete p r = r.require_complete && not (any is_complete p.invocations)

abbrev pub lacks_samples : Profile → Requirements → Bool
lacks_samples p r = r.require_samples && is_empty p.samples

abbrev pub lacks_off_cpu : Profile → Requirements → Bool
lacks_off_cpu p r = r.require_off_cpu && ((sample_summary p).off_count == 0)

-- `validate` after reading the file; the line that it prints is left out.
unfoldable pub check_profile : Profile → Requirements → Result CommandError (Unit {0})
check_profile p r = do
  map_err validation_failed (validate p)
  guard (not (lacks_complete p r)) no_complete_invocations
  guard (not (lacks_samples p r)) no_samples
  guard (not (lacks_off_cpu p r)) no_off_cpu_samples

unfoldable pub validate_file : Codec → List ℕ → Requirements → Result CommandError (Unit {0})
validate_file codec bytes r = do p ← map_err unreadable (from_bytes codec bytes); check_profile p r
