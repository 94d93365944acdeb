-- ===== src/Cli/Summary/Laws.antt =====
-- The summary as sums over the samples, and what `validate` demands of a profile.
use mathlib.Core.List.{mem-cons_of_mem, mem-cons_self, mem-cons, not-mem-nil}
use mathlib.Core.Bool.{false≢true}
use mathlib.Core.Logic.Or
use slice.Base.{
  ℕ, ◌+◌, ◌≡◌, ◌≤◌, ◌<◌, ◌↔◌, ◌⊎◌, ◌∙◌, ap, ok-injective, err, subst, refl, sym, Bool, true, false,
  not, List, [], ◌∷◌, select, length, any, Mem, min, arith, ok, guard, >>-eq-ok, Bool-cases, inl,
  inr, ◌&&◌, ◌==◌, guard→true, Result, map_err,
}
use slice.Cli.Summary.{
  lacks_complete, lacks_samples, no_complete_invocations, no_samples, is_empty, Summary,
  add_to_summary, summary_from, sample_summary, check_profile, Requirements,
}
use slice.Core.Profile.{Profile, Invocation, Sample, ExecutionState, Metric, includes}
use slice.Core.Validate.{is_complete, validate}
use slice.Core.Validate.Decides.{validate-iff-IsWellFormed}
use slice.Core.Validate.Spec.{IsWellFormed}
use slice.Data.Words.{sat_add, u64_max}

-- The weights of the samples of one state, and their number.
abbrev pub weights : List Sample → ℕ
weights [] = 0
weights (s ∷ ss) = s.weight_ns + weights ss

abbrev pub in_metric : Metric → List Sample → List Sample
in_metric metric = select λ s. includes metric s.state

state_cases : (s : ExecutionState) → (s ≡ ExecutionState.on_cpu) ⊎ (s ≡ ExecutionState.off_cpu)
state_cases ExecutionState.on_cpu = inl refl
state_cases ExecutionState.off_cpu = inr refl

-- The fold from any start whose sums fit into a `u64`.
summary_from-sums :
    (t : Summary) (ss : List Sample)
    → t.on_ns ≤ u64_max
    → t.off_ns ≤ u64_max
    → ((summary_from t ss).on_count ≡ t.on_count + length (in_metric Metric.cpu ss))
      × ((summary_from t ss).off_count ≡ t.off_count + length (in_metric Metric.off_cpu ss))
      × ((summary_from t ss).on_ns ≡ min (t.on_ns + weights (in_metric Metric.cpu ss)) u64_max)
      × ((summary_from t ss).off_ns
          ≡ min (t.off_ns + weights (in_metric Metric.off_cpu ss)) u64_max)
unfolding summary_from add_to_summary
summary_from-sums t [] h k = (omega arith, omega arith, omega arith, omega arith)
summary_from-sums t (s ∷ ss) h k = elim (state_cases s.state) [
  | inl e ↦
      let next : Summary = record t {
        on_count = t.on_count + 1;
        on_ns = sat_add t.on_ns s.weight_ns;
      } in
      let (a, b, c, d) = summary_from-sums next ss (omega arith) k in
      rw e (omega (arith, a), omega (arith, b), omega (arith, c), omega (arith, d))
  | inr e ↦
      let next : Summary = record t {
        off_count = t.off_count + 1;
        off_ns = sat_add t.off_ns s.weight_ns;
      } in
      let (a, b, c, d) = summary_from-sums next ss h (omega arith) in
      rw e (omega (arith, a), omega (arith, b), omega (arith, c), omega (arith, d))
]

-- The summary counts the samples of either state, and adds up their weights, each sum capped at
-- the largest `u64`.
pub sample_summary-sums :
    (p : Profile)
    → ((sample_summary p).on_count ≡ length (in_metric Metric.cpu p.samples))
      × ((sample_summary p).off_count ≡ length (in_metric Metric.off_cpu p.samples))
      × ((sample_summary p).on_ns ≡ min (weights (in_metric Metric.cpu p.samples)) u64_max)
      × ((sample_summary p).off_ns ≡ min (weights (in_metric Metric.off_cpu p.samples)) u64_max)
unfolding sample_summary
sample_summary-sums p =
    let (a, b, c, d) =
      summary_from-sums (record { on_count = 0; off_count = 0; on_ns = 0; off_ns = 0 }) p.samples
        (omega arith) (omega arith) in
    (omega (arith, a), omega (arith, b), omega (arith, c), omega (arith, d))

any→Mem {ℓ} :
    {A : Type ℓ} (test : A → Bool) (xs : List A)
    → any test xs ≡ true
    → (x : A) × Mem x xs × (test x ≡ true)
any→Mem test [] h = absurd (cc)
any→Mem test (x ∷ xs) h = elim (Bool-cases (test x)) [
  | inl e ↦ (x, mem-cons_self, e)
  | inr e ↦ let h' = rw e at h in let (y, m, t) = any→Mem test xs h' in (y, mem-cons_of_mem x m, t)
]

-- What the requirements of the command ask of a profile.
pub record Meets (p : Profile) (r : Requirements) : Type 0 where
  pub complete :
      r.require_complete ≡ true → (i : Invocation) × Mem i p.invocations × (is_complete i ≡ true)
  pub sampled : r.require_samples ≡ true → 0 < length p.samples
  pub off_cpu : r.require_off_cpu ≡ true → 0 < length (in_metric Metric.off_cpu p.samples)

Mem→any {ℓ} :
    {A : Type ℓ} (test : A → Bool) (xs : List A) (x : A)
    → Mem x xs
    → test x ≡ true
    → any test xs ≡ true
Mem→any test [] x m t = absurd (not-mem-nil m)
Mem→any test (y ∷ ys) x m t = elim (Bool-cases (test y)) [
  | inl e ↦ rw e refl
  | inr e ↦ rw e (
      Or.elim (hlevel) (mem-cons.0 m)
        (λ same. absurd (false≢true (sym e ∙ subst (λ z. test z ≡ true) same t)))
        (λ n. Mem→any test ys x n t))
]

not_empty : (ss : List Sample) → is_empty ss ≡ false → 0 < length ss
not_empty [] h = cc
not_empty (s ∷ ss) h = omega arith

has_samples : (ss : List Sample) → 0 < length ss → is_empty ss ≡ false
has_samples [] h = absurd (omega arith)
has_samples (s ∷ ss) h = refl

-- `!(a && b)` as an implication.
required : (a b : Bool) → not (a && b) ≡ true → a ≡ true → b ≡ false
required a b h e = ground arith

allowed : (a b : Bool) → (a ≡ true → b ≡ false) → not (a && b) ≡ true
allowed true b h = rw (h refl) refl
allowed false b h = refl

positive : (n : ℕ) → (n == 0) ≡ false → 0 < n
positive n h = ground arith

not_zero : (n : ℕ) → 0 < n → (n == 0) ≡ false
not_zero n h = ground arith

map_err-eq-ok {ℓ κ μ} :
    {E : Type ℓ} {F : Type κ} {A : Type μ} {a : A} (f : E → F) (m : Result E A)
    → map_err f m ≡ ok a
    → m ≡ ok a
map_err-eq-ok f (ok x) h = ap ok (ok-injective h)
map_err-eq-ok f (err e) h = cc

not-false : (b : Bool) → not b ≡ false → b ≡ true
not-false true h = refl
not-false false h = cc

module _ (p : Profile) (r : Requirements) where
  off_count-eq : (sample_summary p).off_count ≡ length (in_metric Metric.off_cpu p.samples)
  off_count-eq = (sample_summary-sums p).1

  check_profile_sound : check_profile p r ≡ ok tt → IsWellFormed p × Meets p r
  unfolding check_profile
  check_profile_sound h =
      let (valid, h1) = >>-eq-ok (map_err _ (validate p)) _ h in
      let (c, h2) = >>-eq-ok (guard (not (lacks_complete p r)) no_complete_invocations) _ h1 in
      let (s, o) = >>-eq-ok (guard (not (lacks_samples p r)) no_samples) _ h2 in
      (
        (validate-iff-IsWellFormed p).0 (map_err-eq-ok _ (validate p) valid),
        record {
          complete = λ e.
              any→Mem is_complete p.invocations (not-false _ (required _ _ (guard→true _ _ c) e));
          sampled = λ e. not_empty p.samples (required _ _ (guard→true _ _ s) e);
          off_cpu =
              λ e. subst (λ n. 0 < n) off_count-eq (positive _ (required _ _ (guard→true _ _ o) e));
        },
      )

  check_profile_complete : IsWellFormed p → Meets p r → check_profile p r ≡ ok tt
  unfolding check_profile
  check_profile_complete w m =
      let c = allowed r.require_complete (not (any is_complete p.invocations)) (λ e.
        let (i, member, complete) = m.complete e in
        rw (Mem→any is_complete p.invocations i member complete) refl) in
      let s =
        allowed r.require_samples (is_empty p.samples) (λ e. has_samples p.samples (m.sampled e)) in
      let o =
        allowed r.require_off_cpu ((sample_summary p).off_count == 0)
          (λ e. not_zero _ (subst (λ n. 0 < n) (sym off_count-eq) (m.off_cpu e))) in
      rw ((validate-iff-IsWellFormed p).1 w, c, s, o) refl

  -- The command accepts exactly the well-formed profiles that meet its requirements.
  pub check_profile_iff : (check_profile p r ≡ ok tt) ↔ (IsWellFormed p × Meets p r)
  check_profile_iff = (check_profile_sound, λ (w, m). check_profile_complete w m)
