-- ===== src/Cli/Discover/Report.antt =====
-- What `discover` prints: distinct functions with their times, in order, none of them omitted but
-- for the limit of 30.
use mathlib.Core.List.{mem-cons}
use mathlib.Core.List.Perm
use mathlib.Core.Logic.Or
use Prim.Native.Nat.{Ordering}
use slice.Base.{
  ℕ, ◌%◌, ◌^◌, ◌<◌, ◌≡◌, refl, sym, ap, subst, ◌∙◌, Bool, true, false, not, List, [], ◌∷◌, arith,
  All, All-map, Mem, Bool-cases, inl, inr, length, ◌⊎◌, ◌≢◌, ltb, ltb→lt,
}
use slice.Cli.Discover.{
  Times, add_time, add_frames, observed_frames, inclusive_from, inclusive, longer_or_equal,
  discover,
}
use slice.Cli.Discover.Laws.{time_of, inclusive_time, time_of-inclusive, longer_or_equal_total}
use slice.Core.Profile.{Profile, Frame, Stack, Sample, Metric}
use slice.Data.Sort.{sort, sort-perm, sort-All, sort-IsSorted, IsSorted}
use slice.Data.Sort.Prefix.{sort-IsSorted_apart, take-All, take-IsSorted, take-misses}
use slice.Data.Text.{
  Text, text_eq, text_eq→≡, text_eq_self, Ordering-cases, compare_text, compare_text-lt_trans,
  compare_text→≡, compare_text-eq_right,
}

abbrev distinct : Text × ℕ → Text × ℕ → Bool
distinct (name, time) (name', time') = not (text_eq name name')

distinct_sym : (x y : Text × ℕ) → distinct x y ≡ true → distinct y x ≡ true
distinct_sym (s, a) (t, b) h = elim (Bool-cases (text_eq t s)) [
  | inl e ↦
      let same = text_eq→≡ t s e in
      absurd (let h' = rw same at h in let self = text_eq_self s in cc)
  | inr e ↦ rw e refl
]

add_time-fresh :
    (entry : Text × ℕ) (label : Text) (w : ℕ) (m : Times)
    → text_eq entry.0 label ≡ false
    → All (λ e. distinct entry e ≡ true) m
    → All (λ e. distinct entry e ≡ true) (add_time label w m)
unfolding add_time
add_time-fresh entry label w [] h a = (rw h refl, tt)
add_time-fresh entry label w ((l, time) ∷ m) h a = elim (Bool-cases (text_eq l label)) [
  | inl e ↦ rw e a
  | inr e ↦ rw e (a.0, add_time-fresh entry label w m h a.1)
]

add_time-IsSorted :
    (label : Text) (w : ℕ) (m : Times)
    → IsSorted distinct m
    → IsSorted distinct (add_time label w m)
unfolding add_time
add_time-IsSorted label w [] s = (tt, tt)
add_time-IsSorted label w ((l, time) ∷ m) s = elim (Bool-cases (text_eq l label)) [
  | inl e ↦ rw e s
  | inr e ↦ rw e (add_time-fresh (l, time) label w m e s.0, add_time-IsSorted label w m s.1)
]

add_frames-IsSorted :
    (fs : List Frame) (w : ℕ) (m : Times)
    → IsSorted distinct m
    → IsSorted distinct (add_frames fs w m)
unfolding add_frames
add_frames-IsSorted [] w m s = s
add_frames-IsSorted (f ∷ fs) w m s =
    add_frames-IsSorted fs w (add_time f.label w m) (add_time-IsSorted f.label w m s)

inclusive_from-IsSorted :
    (metric : Metric) (stacks : List Stack) (ss : List Sample) (m : Times)
    → IsSorted distinct m
    → IsSorted distinct (inclusive_from metric stacks ss m)
unfolding inclusive_from
inclusive_from-IsSorted metric stacks [] m s = s
inclusive_from-IsSorted metric stacks (x ∷ xs) m s =
    inclusive_from-IsSorted metric stacks xs
      (add_frames (observed_frames metric stacks x) x.weight_ns m)
      (add_frames-IsSorted (observed_frames metric stacks x) x.weight_ns m s)

time_of-tail :
    (entry : Text × ℕ) (m es : Times)
    → All (λ e. distinct entry e ≡ true) es
    → All (λ e. time_of e.0 m ≡ e.1) es
    → All (λ e. time_of e.0 (entry ∷ m) ≡ e.1) es
time_of-tail (l, t) m [] d a = tt
time_of-tail (l, t) m ((k, time) ∷ es) d a = elim (Bool-cases (text_eq l k)) [
  | inl e ↦ absurd (let d' = rw e at d.0 in cc)
  | inr e ↦ (rw e a.0, time_of-tail (l, t) m es d.1 a.1)
]

-- Among distinct names every entry is found by its name.
time_of-entries : (m : Times) → IsSorted distinct m → All (λ e. time_of e.0 m ≡ e.1) m
time_of-entries [] s = tt
time_of-entries ((l, time) ∷ m) s =
    (rw (text_eq_self l) refl, time_of-tail (l, time) m m s.0 (time_of-entries m s.1))

time_of-Mem : (label : Text) (m : Times) → 0 < time_of label m → Mem (label, time_of label m) m
time_of-Mem label [] h = absurd (omega (arith, h))
time_of-Mem label ((l, time) ∷ m) h = elim (Bool-cases (text_eq l label)) [
  | inl e ↦ rw (text_eq→≡ l label e, text_eq_self label) (mem-cons.1 (Or.inl refl))
  | inr e ↦ let h' = rw e at h in rw e (mem-cons.1 (Or.inr (time_of-Mem label m h')))
]

longer_or_equal_trans :
    (x y z : Text × ℕ)
    → longer_or_equal x y ≡ true
    → longer_or_equal y z ≡ true
    → longer_or_equal x z ≡ true
longer_or_equal_trans (s, a) (t, b) (u, c) h k = elim (Ordering-cases (compare_text s t)) [
  | inl st ↦ elim (Ordering-cases (compare_text t u)) [
    | inl tu ↦ let su = compare_text-lt_trans s t u st tu in ground arith
    | inr (inl tu) ↦ let su = compare_text-eq_right s t u tu in ground arith
    | inr (inr tu) ↦ ground arith
  ]
  | inr (inl st) ↦
      let su : compare_text s u ≡ compare_text t u =
        ap (λ x. compare_text x u) (compare_text→≡ s t st) in
      ground arith
  | inr (inr st) ↦ ground arith
]

-- The function with the longer time ranks before the other, of equal times that with the smaller name.
abbrev RanksBefore : Text × ℕ → Text × ℕ → Type 0
RanksBefore (name, time) (name', time') =
    (time' < time) ⊎ ((time ≡ time') × (compare_text name name' ≢ Ordering.gt))

-- Every function ranks before those that follow it.
abbrev pub IsRanked : Times → Type 0
IsRanked [] = Unit
IsRanked (e ∷ es) = All (RanksBefore e) es × IsRanked es

longer_or_equal-RanksBefore : (e f : Text × ℕ) → longer_or_equal e f ≡ true → RanksBefore e f
longer_or_equal-RanksBefore (s, a) (t, b) h = elim (Bool-cases (ltb b a)) [
  | inl e ↦ inl (ltb→lt _ _ e)
  | inr e ↦ elim (Ordering-cases (compare_text s t)) [
    | inl o ↦ inr (ground (arith, h, e), λ gt. cc)
    | inr (inl o) ↦ inr (ground (arith, h, e), λ gt. cc)
    | inr (inr o) ↦ absurd (ground (arith, h, e, o))
  ]
]

IsSorted-IsRanked : (es : Times) → IsSorted longer_or_equal es → IsRanked es
IsSorted-IsRanked [] s = tt
IsSorted-IsRanked (e ∷ es) s =
    (All-map _ _ (λ f h. longer_or_equal-RanksBefore e f h) es s.0, IsSorted-IsRanked es s.1)

-- What a list of functions with times says about a profile.
pub record IsReport (p : Profile) (metric : Metric) (listed : Times) : Type 0 where
  -- Every time is the weight of the samples that show the function.
  pub times : All (λ e. e.1 ≡ inclusive_time e.0 metric p.stacks p.samples % 2 ^ 64) listed
  -- No function is listed twice.
  pub names : IsSorted distinct listed
  -- The longer time comes first, then the smaller name.
  pub order : IsRanked listed
  -- A function with a time is missing only where thirty stand before it.
  pub missing :
      (label : Text)
      → 0 < inclusive_time label metric p.stacks p.samples % 2 ^ 64
      → ¬ Mem (label, inclusive_time label metric p.stacks p.samples % 2 ^ 64) listed
      → (length listed ≡ 30)
        × All
            (λ e. RanksBefore e (label, inclusive_time label metric p.stacks p.samples % 2 ^ 64))
            listed

-- The functions that discover prints have the weight of the samples of the metric whose stacks show
-- them, modulo 2^64 and once for every frame with the name; no function is printed twice, the longer
-- time comes first and the smaller name among equal ones, and a function with a time is missing only
-- where thirty others that rank before it are printed.
pub discover-IsReport : (p : Profile) (metric : Metric) → IsReport p metric (discover p metric)
unfolding discover inclusive
discover-IsReport p metric =
    let found = inclusive p metric in
    let apart : IsSorted distinct found = inclusive_from-IsSorted metric p.stacks p.samples [] tt in
    let ordered = sort-IsSorted longer_or_equal longer_or_equal_total longer_or_equal_trans found in
    let exact =
      All-map (λ e. time_of e.0 found ≡ e.1)
        (λ e. e.1 ≡ inclusive_time e.0 metric p.stacks p.samples % 2 ^ 64)
        (λ e same. sym same ∙ time_of-inclusive p metric e.0) found (time_of-entries found apart) in
    record {
      times =
          take-All (λ e. e.1 ≡ inclusive_time e.0 metric p.stacks p.samples % 2 ^ 64) 30 _
            (sort-All longer_or_equal _ found exact);
      names =
          take-IsSorted distinct 30 (sort longer_or_equal found)
            (sort-IsSorted_apart longer_or_equal distinct distinct_sym found apart);
      order =
          IsSorted-IsRanked _
            (take-IsSorted longer_or_equal 30 (sort longer_or_equal found) ordered);
      missing = λ label h absent.
          let total = time_of-inclusive p metric label in
          let member : Mem (label, inclusive_time label metric p.stacks p.samples % 2 ^ 64) found =
            subst (λ t. Mem (label, t) found) total
              (time_of-Mem label found (subst (λ t. 0 < t) (sym total) h)) in
          let (full, before) =
            take-misses longer_or_equal _ 30 (sort longer_or_equal found) ordered
              ((Perm.mem_iff (sort-perm longer_or_equal found)).1 member) absent in
          (full, All-map _ _ (λ e h. longer_or_equal-RanksBefore e _ h) _ before);
    }
