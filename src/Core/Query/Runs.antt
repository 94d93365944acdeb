-- ===== src/Core/Query/Runs.antt =====
-- A run of `execute_query` in its parts, and when it returns a result.
use slice.Base.{
  ℕ, ◌-◌, ◌≡◌, sym, ap, ◌∙◌, false, List, map, length, take, drop, ok, arith, >>-eq-ok, >>=-eq-ok,
  inl, inr, ok-injective, Bool-cases, ◌&&◌, leb,
}
use slice.Core.Float.{Float, percentile_r7}
use slice.Core.Profile.{Profile, Invocation, duration_ns}
use slice.Core.Query.{
  Query, QueryResult, candidates, slice_range, execute_query, measure, report, Totals, no_totals,
  root_of, validate_percentile, validate_time, add_samples,
}
use slice.Core.Rank.{PercentileRange, is_invalid, rank_bounds}

-- What the result of a run holds, from the totals of the loop over the samples.
pub record IsRun (fl : Float) (p : Profile) (q : Query) (r : QueryResult fl.F64) (t : Totals)
    : Type 0 where
  pub range_valid : is_invalid q.percentile ≡ false
  pub summed : add_samples p q r.selected_invocation_ids no_totals p.samples ≡ ok t
  pub available : r.available_invocation_count ≡ length (candidates p q)
  pub selected :
      let (start, end) = rank_bounds (length (candidates p q)) q.percentile in
      r.selected_invocation_ids ≡ map (λ i. i.id) (take (end - start) (drop start (candidates p q)))
  pub sampled : r.sampled_cpu_ns ≡ t.sampled_cpu_ns
  pub blocked : r.off_cpu_ns ≡ t.off_cpu_ns
  pub rooted : r.root ≡ root_of r.selected_invocation_ids t.tree

percentile-valid : (r : PercentileRange) → validate_percentile r ≡ ok tt → is_invalid r ≡ false
unfolding validate_percentile
percentile-valid r h = ground arith

report_lem :
    (fl : Float) (q : Query) (sorted selected : List Invocation) (t : Totals)
    (r : QueryResult fl.F64)
    → report fl q sorted selected t ≡ ok r
    → (r.selected_invocation_ids ≡ map (λ i. i.id) selected)
      × (r.available_invocation_count ≡ length sorted)
      × (r.sampled_cpu_ns ≡ t.sampled_cpu_ns)
      × (r.off_cpu_ns ≡ t.off_cpu_ns)
      × (r.root ≡ root_of (map (λ i. i.id) selected) t.tree)
unfolding report
report_lem fl q sorted selected t r h =
    let ds = map duration_ns sorted in
    let (low, e1, h1) = >>=-eq-ok (percentile_r7 fl ds (fl.of_usize q.percentile.low)) _ h in
    let (high, e2, h2) = >>=-eq-ok (percentile_r7 fl ds (fl.of_usize q.percentile.high)) _ h1 in
    let same = sym (ok-injective h2) in
    (
      ap (λ x. x.selected_invocation_ids) same,
      ap (λ x. x.available_invocation_count) same,
      ap (λ x. x.sampled_cpu_ns) same,
      ap (λ x. x.off_cpu_ns) same,
      ap (λ x. x.root) same,
    )

measure_lem :
    (fl : Float) (p : Profile) (q : Query) (sorted selected : List Invocation)
    (r : QueryResult fl.F64)
    → measure fl p q sorted selected ≡ ok r
    → (t : Totals) × (add_samples p q (map (λ i. i.id) selected) no_totals p.samples ≡ ok t)
      × (report fl q sorted selected t ≡ ok r)
unfolding measure
measure_lem fl p q sorted selected r h =
    >>=-eq-ok (add_samples p q (map (λ i. i.id) selected) no_totals p.samples)
      (report fl q sorted selected) h

slice_range-taken :
    (items : List Invocation) (start end : ℕ) {taken : List Invocation}
    → slice_range items (start, end) ≡ ok taken
    → taken ≡ take (end - start) (drop start items)
unfolding slice_range
slice_range-taken items start end {taken} h =
    elim (Bool-cases (leb start end && leb end (length items))) [
      | inl within ↦ sym (ok-injective (rw within at h))
      | inr outside ↦ absurd (ground arith)
    ]

pub execute_query-IsRun :
    (fl : Float) (p : Profile) (q : Query) (r : QueryResult fl.F64)
    → execute_query fl p q ≡ ok r
    → (t : Totals) × IsRun fl p q r t
unfolding execute_query
execute_query-IsRun fl p q r h0 =
    let sorted = candidates p q in
    let (e1, h1) = >>-eq-ok (validate_percentile q.percentile) _ h0 in
    let (e2, h2) = >>-eq-ok (validate_time q.time) _ h1 in
    let (selected, e3, h3) =
      >>=-eq-ok (slice_range sorted (rank_bounds (length sorted) q.percentile))
        (measure fl p q sorted) h2 in
    let (t, e4, h4) = measure_lem fl p q sorted selected r h3 in
    let (ids, count, cpu, off, root) = report_lem fl q sorted selected t r h4 in
    let taken = slice_range-taken sorted _ _ e3 in
    (
      t,
      record {
        range_valid = percentile-valid q.percentile e1;
        summed = rw ids e4;
        available = count;
        selected = ids ∙ ap (map (λ i. i.id)) taken;
        sampled = cpu;
        blocked = off;
        rooted = rw ids root;
      },
    )
