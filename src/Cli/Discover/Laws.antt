-- ===== src/Cli/Discover/Laws.antt =====
-- The inclusive times as sums over the samples, and the order of the list.
use mathlib.Core.Bool.{false≢true}
use slice.Base.{
  ℕ, ◌+◌, ◌*◌, ◌%◌, ◌^◌, ◌≡◌, true, false, List, [], ◌∷◌, arith, Bool-cases, inl, inr, sym, ◌∙◌,
  subst, if◌then◌else◌, ◌<◌, any, refl, none, some, Option-cases, Bool,
}
use slice.Cli.Discover.{
  Times, add_time, add_frames, observed_frames, inclusive_from, inclusive, longer_or_equal,
}
use slice.Core.Profile.{Profile, Frame, Stack, Sample, Metric, ExecutionState, includes}
use slice.Core.Query.{stack_of}
use slice.Data.Text.{
  Text, text_eq, text_eq→≡, text_eq_self, Ordering-cases, compare_text-gt_lt, compare_text,
}

-- The time that a map has for a label, 0 where it has none.
abbrev pub time_of : Text → Times → ℕ
time_of label [] = 0
time_of label ((l, time) ∷ m) = if text_eq l label then time else time_of label m

-- How often a label occurs among frames.
abbrev pub occurrences : Text → List Frame → ℕ
occurrences label [] = 0
occurrences label (f ∷ fs) = (if text_eq f.label label then 1 else 0) + occurrences label fs

-- The states that a metric is about.
abbrev states_of : Metric → List ExecutionState
states_of Metric.wall = ExecutionState.on_cpu ∷ ExecutionState.off_cpu ∷ []
states_of Metric.cpu = ExecutionState.on_cpu ∷ []
states_of Metric.off_cpu = ExecutionState.off_cpu ∷ []

abbrev same_state : ExecutionState → ExecutionState → Bool
same_state ExecutionState.on_cpu ExecutionState.on_cpu = true
same_state ExecutionState.off_cpu ExecutionState.off_cpu = true
same_state _ _ = false

-- How often a label occurs in the stack with an id; not at all in one that is missing.
abbrev shown : Text → List Stack → ℕ → ℕ
shown label stacks id = elim (stack_of stacks id) [
  | none ↦ 0
  | some frames ↦ occurrences label frames
]

-- The weight of the samples of the metric, each as often as the label occurs in its stack.
abbrev pub inclusive_time : Text → Metric → List Stack → List Sample → ℕ
inclusive_time label metric stacks [] = 0
inclusive_time label metric stacks (s ∷ ss) =
    (if any (same_state s.state) (states_of metric)
      then s.weight_ns * shown label stacks s.stack_id
      else 0)
    + inclusive_time label metric stacks ss

includes-states_of :
    (metric : Metric) (state : ExecutionState)
    → includes metric state ≡ any (same_state state) (states_of metric)
includes-states_of Metric.wall ExecutionState.on_cpu = refl
includes-states_of Metric.wall ExecutionState.off_cpu = refl
includes-states_of Metric.cpu ExecutionState.on_cpu = refl
includes-states_of Metric.cpu ExecutionState.off_cpu = refl
includes-states_of Metric.off_cpu ExecutionState.on_cpu = refl
includes-states_of Metric.off_cpu ExecutionState.off_cpu = refl

observed_frames-occurrences :
    (label : Text) (metric : Metric) (stacks : List Stack) (s : Sample)
    → s.weight_ns * occurrences label (observed_frames metric stacks s) ≡ (
        if any (same_state s.state) (states_of metric)
        then s.weight_ns * shown label stacks s.stack_id
        else 0)
unfolding observed_frames
observed_frames-occurrences label metric stacks s =
    let same = includes-states_of metric s.state in
    elim (Bool-cases (any (same_state s.state) (states_of metric))) [
      | inl e ↦ elim (Option-cases (stack_of stacks s.stack_id)) [
        | inl e' ↦ rw (same, e, e', shown) refl
        | inr (frames, e') ↦ rw (same, e, e', shown) refl
      ]
      | inr e ↦ rw (same, e) (omega arith)
    ]

text_eq-other :
    (k l label : Text) → text_eq k l ≡ false → text_eq k label ≡ true → text_eq l label ≡ false
text_eq-other k l label other e = elim (Bool-cases (text_eq l label)) [
  | inr d ↦ d
  | inl d ↦ absurd (
      let same : k ≡ l = text_eq→≡ k label e ∙ sym (text_eq→≡ l label d) in
      let self = subst (λ x. text_eq k x ≡ true) same (text_eq_self k) in
      false≢true (sym other ∙ self))
]

time_of-add_time :
    (label l : Text) (w : ℕ) (m : Times)
    → time_of label m < 2 ^ 64
    → time_of label (add_time l w m)
      ≡ (time_of label m + (if text_eq l label then w else 0)) % 2 ^ 64
unfolding add_time
time_of-add_time label l w [] b = ground arith
time_of-add_time label l w ((k, time) ∷ m) b = elim (Bool-cases (text_eq k l)) [
  | inl same ↦
      let eq = text_eq→≡ k l same in
      let b' = rw eq at b in
      elim (Bool-cases (text_eq l label)) [
        | inl e ↦ rw (same, eq, e) (omega arith)
        | inr e ↦ let b'' = rw e at b' in rw (same, eq, e) (omega (arith, b''))
      ]
  | inr other ↦ rw other (elim (Bool-cases (text_eq k label)) [
    | inl e ↦ let b' = rw e at b in rw (e, text_eq-other k l label other e) (omega (arith, b'))
    | inr e ↦ let b' = rw e at b in rw e (time_of-add_time label l w m b')
  ])
]

time_of-add_frames :
    (label : Text) (fs : List Frame) (w : ℕ) (m : Times)
    → time_of label m < 2 ^ 64
    → time_of label (add_frames fs w m) ≡ (time_of label m + w * occurrences label fs) % 2 ^ 64
unfolding add_frames
time_of-add_frames label [] w m b = omega arith
time_of-add_frames label (f ∷ fs) w m b =
    let one = time_of-add_time label f.label w m b in
    let rest = time_of-add_frames label fs w (add_time f.label w m) (omega (arith, one)) in
    elim (Bool-cases (text_eq f.label label)) [
      | inl e ↦ let one' = rw e at one in rw e (grind (arith, rest, one'))
      | inr e ↦ let one' = rw e at one in rw e (omega (arith, rest, one'))
    ]

time_of-inclusive_from :
    (label : Text) (metric : Metric) (stacks : List Stack) (ss : List Sample) (m : Times)
    → time_of label m < 2 ^ 64
    → time_of label (inclusive_from metric stacks ss m)
      ≡ (time_of label m + inclusive_time label metric stacks ss) % 2 ^ 64
unfolding inclusive_from
time_of-inclusive_from label metric stacks [] m b = omega arith
time_of-inclusive_from label metric stacks (s ∷ ss) m b =
    let fs = observed_frames metric stacks s in
    let one = time_of-add_frames label fs s.weight_ns m b in
    let rest =
      time_of-inclusive_from label metric stacks ss (add_frames fs s.weight_ns m)
        (omega (arith, one)) in
    let weight = observed_frames-occurrences label metric stacks s in
    omega (arith, one, rest, weight)

-- The time that `discover` has for a function is the weight of the samples of the metric whose
-- stacks show it, modulo 2^64; a sample counts once for every frame of its stack with the name of
-- the function, so a recursive function is charged several times.
pub time_of-inclusive :
    (p : Profile) (metric : Metric) (label : Text)
    → time_of label (inclusive p metric) ≡ inclusive_time label metric p.stacks p.samples % 2 ^ 64
unfolding inclusive
time_of-inclusive p metric label =
    let e = time_of-inclusive_from label metric p.stacks p.samples [] (omega arith) in
    omega (arith, e)

pub longer_or_equal_total :
    (x y : Text × ℕ) → longer_or_equal x y ≡ false → longer_or_equal y x ≡ true
longer_or_equal_total (s, a) (t, b) h = elim (Ordering-cases (compare_text s t)) [
  | inl lt ↦ grind arith
  | inr (inl eq) ↦ grind arith
  | inr (inr gt) ↦ let lt = compare_text-gt_lt s t gt in grind arith
]
