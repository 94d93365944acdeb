-- ===== src/Cli/Doctor.antt =====
-- crates/slice-cli/src/main.rs: `doctor`, the numbers of its summary and its result.
use slice.Base.{
  ℕ, ◌+◌, ◌-◌, ◌≡◌, refl, Bool, true, false, not, List, [], ◌∷◌, length, select, any, Result, ok,
  guard, arith, Bool-cases, inl, inr, ◌⊎◌, ◌↔◌, guard→true,
}
use slice.Capture.{
  CheckStatus, pass, warning, failure, PrerequisiteCheck, DoctorReport, has_failures, is_failure,
}

abbrev pub is_warning : CheckStatus → Bool
is_warning warning = true
is_warning _ = false

abbrev pub is_pass : CheckStatus → Bool
is_pass pass = true
is_pass _ = false

abbrev pub number_of : (CheckStatus → Bool) → List PrerequisiteCheck → ℕ
number_of test checks = length (select (λ check. test check.status) checks)

pub record DoctorSummary : Type 0 where
  pub passed : ℕ
  pub warnings : ℕ
  pub failures : ℕ

unfoldable pub doctor_summary : DoctorReport → DoctorSummary
doctor_summary report = record {
  passed =
      length report.checks
      - number_of is_warning report.checks
      - number_of is_failure report.checks;
  warnings = number_of is_warning report.checks;
  failures = number_of is_failure report.checks;
}

pub data DoctorError : Type 0 where
  prerequisites_failed : DoctorError

-- The result of the command, after it has printed the report.
unfoldable pub doctor : DoctorReport → Result DoctorError (Unit {0})
doctor report = guard (not (has_failures report)) prerequisites_failed

state_cases : (s : CheckStatus) → (s ≡ pass) ⊎ ((s ≡ warning) ⊎ (s ≡ failure))
state_cases pass = inl refl
state_cases warning = inr (inl refl)
state_cases failure = inr (inr refl)

not-true : (b : Bool) → not b ≡ true → b ≡ false
not-true b h = ground arith

-- Every check has one of the three states.
number_of-states :
    (checks : List PrerequisiteCheck)
    → number_of is_pass checks + number_of is_warning checks + number_of is_failure checks
      ≡ length checks
number_of-states [] = omega arith
number_of-states (c ∷ cs) = elim (state_cases c.status) [
  | inl e ↦ rw e (omega (arith, number_of-states cs))
  | inr (inl e) ↦ rw e (omega (arith, number_of-states cs))
  | inr (inr e) ↦ rw e (omega (arith, number_of-states cs))
]

doctor_summary-counts :
    (report : DoctorReport) → (doctor_summary report).passed ≡ number_of is_pass report.checks
unfolding doctor_summary
doctor_summary-counts report = omega (arith, number_of-states report.checks)

any-number_of :
    (checks : List PrerequisiteCheck)
    → (any (λ check. is_failure check.status) checks ≡ false) ↔ (number_of is_failure checks ≡ 0)
any-number_of [] = (λ h. refl, λ h. refl)
any-number_of (c ∷ cs) = elim (Bool-cases (is_failure c.status)) [
  | inl e ↦ rw e (λ h. absurd (cc), λ h. absurd (omega (arith, h)))
  | inr e ↦ rw e (any-number_of cs)
]

-- The number of passed checks that the summary computes by subtraction is their number, and the
-- command succeeds exactly when the summary counts no failure.
pub doctor_lem :
    (report : DoctorReport)
    → ((doctor_summary report).passed ≡ number_of is_pass report.checks)
      × ((doctor report ≡ ok tt) ↔ ((doctor_summary report).failures ≡ 0))
unfolding doctor doctor_summary has_failures
doctor_lem report =
    let a = any-number_of report.checks in
    (doctor_summary-counts report, (λ h. a.0 (not-true _ (guard→true _ _ h)), λ h. rw (a.1 h) refl))
