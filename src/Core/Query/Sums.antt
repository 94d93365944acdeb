-- ===== src/Core/Query/Sums.antt =====
-- What the loop over the samples adds up: the flame tree and the two totals, against the samples
-- that count.
use slice.Base.{
  ℕ, ◌+◌, ◌≡◌, refl, sym, ap, ◌∙◌, Bool, true, false, not, ◌&&◌, Option, none, some, List, [], ◌∷◌,
  ok, arith, contains, if◌then◌else◌, >>=-eq-ok, ok-injective, subst, is_some_and, min,
}
use slice.Core.Profile.{Profile, Sample, Frame, ExecutionState, on_cpu, off_cpu, Metric, includes}
use slice.Core.Query.{
  Query, Totals, no_totals, add_samples, add_sample, stack_of, count_frames, count_sample,
  frames_from, is_start_frame, selected_name,
}
use slice.Core.Tree.Order.{IsOrdered, insert-IsOrdered}
use slice.Core.Tree.Values.{value_at, value_at-insert, value_at-default, begins_with}
use slice.Data.Text.{Text}
use slice.Data.Words.{sat_add, u64_max}

-- The frames of a sample from the queried function on, if it counts for the query: its invocation is
-- selected, its state belongs to the metric, and its stack passes through the function.
abbrev pub counted_frames : Profile → Query → List ℕ → Sample → Option (List Frame)
counted_frames p q ids s =
    if contains s.invocation_id ids && includes q.metric s.state
    then elim (stack_of p.stacks s.stack_id) [
      | none ↦ none
      | some frames ↦
          frames_from (is_start_frame q.function_id (selected_name p q.function_id)) frames
    ]
    else none

-- The total weight of the samples whose counted frames pass a test.
abbrev pub weight_of :
    (Option (List Frame) → Sample → Bool) → Profile → Query → List ℕ → List Sample → ℕ
weight_of test p q ids [] = 0
weight_of test p q ids (s ∷ ss) =
    (if test (counted_frames p q ids s) s then s.weight_ns else 0) + weight_of test p q ids ss

-- A path of labels that the frames of a sample begin with.
abbrev pub along : List Text → Option (List Frame) → Sample → Bool
along path frames s = is_some_and (begins_with path) frames

abbrev pub is_on_cpu : ExecutionState → Bool
is_on_cpu on_cpu = true
is_on_cpu off_cpu = false

-- The samples that count and were taken on or off a processor.
abbrev pub in_state : Bool → Option (List Frame) → Sample → Bool
in_state on frames s =
    is_some_and (λ fs. if on then is_on_cpu s.state else not (is_on_cpu s.state)) frames

-- The totals after a sample with these counted frames.
abbrev after : Totals → Option (List Frame) → Sample → Totals
after t none s = t
after t (some frames) s = count_sample t frames s

add_sample-after :
    (p : Profile) (q : Query) (ids : List ℕ) (t t' : Totals) (s : Sample)
    → add_sample p q ids t s ≡ ok t'
    → t' ≡ after t (counted_frames p q ids s) s
unfolding add_sample count_frames
add_sample-after p q ids t t' s h = ground arith

capped :
    (b : Bool) (x a w : ℕ)
    → x ≡ min a u64_max
    → (if b then sat_add x w else x) ≡ min (a + (if b then w else 0)) u64_max
capped b x a w h = ground arith

-- A number of the totals that each counted sample of a kind adds its weight to.
module _ (f : Totals → ℕ) (test : Option (List Frame) → Sample → Bool)
    (law : (t : Totals) (frames : Option (List Frame)) (s : Sample)
      → f (after t frames s) ≡ (if test frames s then sat_add (f t) s.weight_ns else f t)) where
  add_samples-sum :
      (p : Profile) (q : Query) (ids : List ℕ) (t t' : Totals) (a : ℕ) (ss : List Sample)
      → f t ≡ min a u64_max
      → add_samples p q ids t ss ≡ ok t'
      → f t' ≡ min (a + weight_of test p q ids ss) u64_max
  unfolding add_samples
  add_samples-sum p q ids t t' a [] start h = ap f (sym (ok-injective h)) ∙ start ∙ omega arith
  add_samples-sum p q ids t t' a (s ∷ ss) start h =
      let (u, first, rest) = >>=-eq-ok (add_sample p q ids t s) _ h in
      let frames = counted_frames p q ids s in
      let w : ℕ = if test frames s then s.weight_ns else 0 in
      let step : f u ≡ min (a + w) u64_max =
        ap f (add_sample-after p q ids t u s first)
        ∙ law t frames s
        ∙ capped (test frames s) (f t) a s.weight_ns start in
      add_samples-sum p q ids u t' (a + w) ss step rest ∙ omega arith

value_at-after :
    (path : List Text) (t : Totals) (frames : Option (List Frame)) (s : Sample)
    → value_at path (after t frames s).tree ≡ (
        if along path frames s
        then sat_add (value_at path t.tree) s.weight_ns
        else value_at path t.tree)
unfolding count_sample
value_at-after path t none s = refl
value_at-after path t (some frames) s =
    ground (arith, value_at-insert path frames s.weight_ns t.tree)

sampled-after :
    (t : Totals) (frames : Option (List Frame)) (s : Sample)
    → (after t frames s).sampled_cpu_ns
      ≡ (if in_state true frames s then sat_add t.sampled_cpu_ns s.weight_ns else t.sampled_cpu_ns)
unfolding count_sample
sampled-after t none s = refl
sampled-after t (some frames) s = ground arith

blocked-after :
    (t : Totals) (frames : Option (List Frame)) (s : Sample)
    → (after t frames s).off_cpu_ns
      ≡ (if in_state false frames s then sat_add t.off_cpu_ns s.weight_ns else t.off_cpu_ns)
unfolding count_sample
blocked-after t none s = refl
blocked-after t (some frames) s = ground arith

module _ (p : Profile) (q : Query) (ids : List ℕ) (t : Totals)
    (run : add_samples p q ids no_totals p.samples ≡ ok t) where
  pub value_at-add_samples :
      (path : List Text)
      → value_at path t.tree ≡ min (weight_of (along path) p q ids p.samples) u64_max
  value_at-add_samples path =
      add_samples-sum (λ u. value_at path u.tree) (along path) (value_at-after path) p q ids
        no_totals t 0 p.samples (value_at-default path ∙ omega arith) run
      ∙ omega arith

  pub sampled-add_samples :
      t.sampled_cpu_ns ≡ min (weight_of (in_state true) p q ids p.samples) u64_max
  sampled-add_samples =
      add_samples-sum (λ u. u.sampled_cpu_ns) (in_state true) sampled-after p q ids no_totals t 0
        p.samples (omega arith) run
      ∙ omega arith

  pub blocked-add_samples :
      t.off_cpu_ns ≡ min (weight_of (in_state false) p q ids p.samples) u64_max
  blocked-add_samples =
      add_samples-sum (λ u. u.off_cpu_ns) (in_state false) blocked-after p q ids no_totals t 0
        p.samples (omega arith) run
      ∙ omega arith

split_states :
    (frames : Option (List Frame)) (s : Sample)
    → (if along [] frames s then s.weight_ns else 0)
      ≡ (if in_state true frames s then s.weight_ns else 0)
        + (if in_state false frames s then s.weight_ns else 0)
unfolding begins_with
split_states none s = omega arith
split_states (some fs) s = ground arith

-- Every counted sample is on a processor or off it.
pub weight_of_states :
    (p : Profile) (q : Query) (ids : List ℕ) (ss : List Sample)
    → weight_of (along []) p q ids ss
      ≡ weight_of (in_state true) p q ids ss + weight_of (in_state false) p q ids ss
unfolding begins_with
weight_of_states p q ids [] = omega arith
weight_of_states p q ids (s ∷ ss) =
    omega (arith, split_states (counted_frames p q ids s) s, weight_of_states p q ids ss)

excluded :
    (on : Bool) (p : Profile) (q : Query) (ids : List ℕ) (s : Sample)
    → q.metric ≡ (if on then Metric.off_cpu else Metric.cpu)
    → in_state on (counted_frames p q ids s) s ≡ false
excluded true p q ids s h = ground arith
excluded false p q ids s h = ground arith

-- The CPU metric counts no blocked time, and the off-CPU metric no processor time.
pub weight_of_excluded :
    (on : Bool) (p : Profile) (q : Query) (ids : List ℕ) (ss : List Sample)
    → q.metric ≡ (if on then Metric.off_cpu else Metric.cpu)
    → weight_of (in_state on) p q ids ss ≡ 0
weight_of_excluded on p q ids [] h = refl
weight_of_excluded on p q ids (s ∷ ss) h =
    rw (excluded on p q ids s h) (omega (arith, weight_of_excluded on p q ids ss h))

-- If nothing is selected, nothing counts.
pub weight_of-none :
    (test : Option (List Frame) → Sample → Bool) (p : Profile) (q : Query) (ss : List Sample)
    → ((s : Sample) → test none s ≡ false)
    → weight_of test p q [] ss ≡ 0
weight_of-none test p q [] h = refl
weight_of-none test p q (s ∷ ss) h = ground (arith, h s, weight_of-none test p q ss h)

add_sample-IsOrdered :
    (t : Totals) (frames : Option (List Frame)) (s : Sample)
    → IsOrdered t.tree
    → IsOrdered (after t frames s).tree
unfolding count_sample
add_sample-IsOrdered t none s o = o
add_sample-IsOrdered t (some frames) s o =
    ground (arith, insert-IsOrdered frames s.weight_ns t.tree o)

pub add_samples-IsOrdered :
    (p : Profile) (q : Query) (ids : List ℕ) (t t' : Totals) (ss : List Sample)
    → IsOrdered t.tree
    → add_samples p q ids t ss ≡ ok t'
    → IsOrdered t'.tree
unfolding add_samples
add_samples-IsOrdered p q ids t t' [] o h = subst (λ x. IsOrdered x.tree) (ok-injective h) o
add_samples-IsOrdered p q ids t t' (s ∷ ss) o h =
    let (u, first, rest) = >>=-eq-ok (add_sample p q ids t s) _ h in
    let same = sym (add_sample-after p q ids t u s first) in
    let frames = counted_frames p q ids s in
    add_samples-IsOrdered p q ids u t' ss
      (subst (λ x. IsOrdered x.tree) same (add_sample-IsOrdered t frames s o)) rest
