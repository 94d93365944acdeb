-- ===== src/Core/Query/Meaning.antt =====
-- What the result of `execute_query` says about the profile.
use slice.Base.{
  ℕ, ◌-◌, ◌≡◌, refl, ap, ◌∙◌, true, false, List, [], ◌∷◌, map, length, take, drop, ok, arith, min,
}
use slice.Core.Float.{Float}
use slice.Core.Profile.{Profile, Invocation, Metric}
use slice.Core.Query.{
  Query, QueryResult, Totals, execute_query, candidates, root_of, no_totals, add_samples,
}
use slice.Core.Query.Population.{IsPopulation, candidates-IsPopulation}
use slice.Core.Query.Runs.{execute_query-IsRun}
use slice.Core.Query.Sums.{
  weight_of, along, value_at-add_samples, sampled-add_samples, blocked-add_samples,
  weight_of_states, weight_of_excluded, weight_of-none, add_samples-IsOrdered,
}
use slice.Core.Rank.{rank_bounds}
use slice.Core.Tree.Order.{flame_at, flame_at-finish, flame_at-empty, default-IsOrdered}
use slice.Data.Text.{Text, codes}
use slice.Data.Words.{sat_add, u64_max}

flame_at-root_of :
    (p : Profile) (q : Query) (ids : List ℕ) (t : Totals) (path : List Text)
    → add_samples p q ids no_totals p.samples ≡ ok t
    → flame_at path (root_of ids t.tree) ≡ min (weight_of (along path) p q ids p.samples) u64_max
unfolding root_of
flame_at-root_of p q [] t path run =
    omega (arith, flame_at-empty path, weight_of-none (along path) p q p.samples (λ s. refl))
flame_at-root_of p q (id ∷ ids) t path run =
    flame_at-finish path t.tree (codes "root")
      (add_samples-IsOrdered p q (id ∷ ids) no_totals t p.samples default-IsOrdered run)
    ∙ value_at-add_samples p q (id ∷ ids) t run path

module _ (fl : Float) (p : Profile) (q : Query) (r : QueryResult fl.F64)
    (answered : execute_query fl p q ≡ ok r) where
  -- Where a query has a result, the selected ids are those of the invocations between the two ranks
  -- in the population of the query, lined up by duration and then by id; and the whole population
  -- is counted.
  pub execute_query-IsPopulation :
      (cs : List Invocation) × IsPopulation p q cs
      × (r.available_invocation_count ≡ length cs)
      × (let (start, end) = rank_bounds (length cs) q.percentile in
          r.selected_invocation_ids ≡ map (λ i. i.id) (take (end - start) (drop start cs)))
  execute_query-IsPopulation =
      let (t, run) = execute_query-IsRun fl p q r answered in
      (candidates p q, candidates-IsPopulation p q, run.available, run.selected)

  -- Where a query has a result, the flame graph has at every path of labels the total weight of the
  -- counted samples whose stacks run along that path, capped at the largest `u64`.
  pub execute_query-flame :
      (path : List Text)
      → flame_at path r.root
        ≡ min (weight_of (along path) p q r.selected_invocation_ids p.samples) u64_max
  execute_query-flame path =
      let (t, run) = execute_query-IsRun fl p q r answered in
      ap (flame_at path) run.rooted
      ∙ flame_at-root_of p q r.selected_invocation_ids t path run.summed

  -- Where a query has a result, the value of the root is the sampled time on processors and the
  -- blocked time together.
  pub execute_query_conserves : flame_at [] r.root ≡ sat_add r.sampled_cpu_ns r.off_cpu_ns
  execute_query_conserves =
      let (t, run) = execute_query-IsRun fl p q r answered in
      let ids = r.selected_invocation_ids in
      omega (
        arith,
        execute_query-flame [],
        weight_of_states p q ids p.samples,
        run.sampled ∙ sampled-add_samples p q ids t run.summed,
        run.blocked ∙ blocked-add_samples p q ids t run.summed,
      )

  -- Where a query has a result, under the CPU metric no blocked time is counted, and under the off-
  -- CPU metric no time on a processor.
  pub execute_query-metric :
      (q.metric ≡ Metric.cpu → r.off_cpu_ns ≡ 0)
      × (q.metric ≡ Metric.off_cpu → r.sampled_cpu_ns ≡ 0)
  execute_query-metric =
      let (t, run) = execute_query-IsRun fl p q r answered in
      let ids = r.selected_invocation_ids in
      (
        λ m. omega (
          arith,
          weight_of_excluded false p q ids p.samples m,
          run.blocked ∙ blocked-add_samples p q ids t run.summed,
        ),
        λ m. omega (
          arith,
          weight_of_excluded true p q ids p.samples m,
          run.sampled ∙ sampled-add_samples p q ids t run.summed,
        ),
      )
