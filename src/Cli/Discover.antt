-- ===== src/Cli/Discover.antt =====
-- crates/slice-cli/src/main.rs: `discover`, up to the lines that it prints. The `BTreeMap` of the
-- inclusive times is a list of entries, whose order the sort replaces; `+=` on `u64` wraps around,
-- as in a release build.
pub mod Laws
pub mod Report
use slice.Base.{
  ℕ, ◌+◌, ◌%◌, ◌^◌, Bool, true, false, not, ◌&&◌, ◌||◌, Option, none, some, List, [], ◌∷◌, ltb,
  ◌==◌, if◌then◌else◌, take,
}
use Prim.Native.Nat.{Ordering}
use slice.Core.Profile.{Profile, Frame, Stack, Sample, Metric, includes}
use slice.Core.Query.{stack_of}
use slice.Data.Sort.{sort}
use slice.Data.Text.{Text, text_eq, compare_text}

abbrev pub Times : Type 0
Times = List (Text × ℕ)

-- `*inclusive.entry(label).or_default() += weight_ns`.
unfoldable pub add_time : Text → ℕ → Times → Times
add_time label weight_ns [] = (label, weight_ns % 2 ^ 64) ∷ []
add_time label weight_ns ((l, time) ∷ m) =
    let rest = add_time label weight_ns m in
    if text_eq l label then (l, (time + weight_ns) % 2 ^ 64) ∷ m else (l, time) ∷ rest

-- The inner loop, over the frames of a stack.
unfoldable pub add_frames : List Frame → ℕ → Times → Times
add_frames [] weight_ns m = m
add_frames (f ∷ fs) weight_ns m = add_frames fs weight_ns (add_time f.label weight_ns m)

-- The frames of a sample of the metric: none where its stack is missing.
unfoldable pub observed_frames : Metric → List Stack → Sample → List Frame
observed_frames metric stacks s =
    if includes metric s.state
    then elim (stack_of stacks s.stack_id) [ none ↦ [] | some frames ↦ frames ]
    else []

-- The outer loop, over the samples.
unfoldable pub inclusive_from : Metric → List Stack → List Sample → Times → Times
inclusive_from metric stacks [] m = m
inclusive_from metric stacks (s ∷ ss) m =
    inclusive_from metric stacks ss (add_frames (observed_frames metric stacks s) s.weight_ns m)

unfoldable pub inclusive : Profile → Metric → Times
inclusive p metric = inclusive_from metric p.stacks p.samples []

-- The comparison: the longer time first, then by name.
abbrev pub longer_or_equal : Text × ℕ → Text × ℕ → Bool
longer_or_equal (name, time) (name', time') =
    ltb time' time
    || ((time == time') && elim (compare_text name name') [ Ordering.gt ↦ false | _ ↦ true ])

-- The functions that `discover` prints, with their times.
unfoldable pub discover : Profile → Metric → Times
discover p metric = take 30 (sort longer_or_equal (inclusive p metric))
