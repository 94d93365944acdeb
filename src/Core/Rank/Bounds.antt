-- ===== src/Core/Rank/Bounds.antt =====
-- The rank range of a percentile range lies in the population, grows with the percentile and, below
-- the saturation of `usize`, is the rounded-up share.
use slice.Base.{ℕ, ◌+◌, ◌*◌, ◌^◌, ◌≤◌, ◌<◌, ◌≡◌, false, arith}
use slice.Core.Rank.{PercentileRange, is_invalid, rank, rank_bounds}

mul_mono : (c a b : ℕ) → a ≤ b → c * a ≤ c * b
mul_mono c a b h = grind arith

rank_mono : (count a b : ℕ) → a ≤ b → rank count a ≤ rank count b
unfolding rank
rank_mono count a b h = omega (arith, mul_mono count a b h)

rank-le : (count percent : ℕ) → rank count percent ≤ count
unfolding rank
rank-le count percent = omega arith

-- `&candidates[start..end]` is within bounds: the ranks are ordered and at most the count.
pub rank_bounds_in_range :
    (count : ℕ) (r : PercentileRange)
    → r.low ≤ r.high
    → ((rank_bounds count r).0 ≤ (rank_bounds count r).1) × ((rank_bounds count r).1 ≤ count)
unfolding rank_bounds
rank_bounds_in_range count r h = (rank_mono count r.low r.high h, rank-le count r.high)

-- Below the saturation the rank is the exact share of the population, rounded up.
rank_ceil :
    (count percent : ℕ)
    → percent ≤ 100
    → count * 100 + 99 < 2 ^ 64
    → (count * percent ≤ 100 * rank count percent)
      × (100 * rank count percent < count * percent + 100)
unfolding rank
rank_ceil count percent h small = omega (arith, mul_mono count percent 100 h)

-- For every range that passes `validate`, and a count below the saturation of `usize`, the bounds are
-- the shares of the population below `low` and below `high`, each rounded up to a whole invocation.
pub rank_bounds_ceil :
    (count : ℕ) (r : PercentileRange)
    → is_invalid r ≡ false
    → count * 100 + 99 < 2 ^ 64
    → let (start, end) = rank_bounds count r in
      (count * r.low ≤ 100 * start)
      × (100 * start < count * r.low + 100)
      × (count * r.high ≤ 100 * end)
      × (100 * end < count * r.high + 100)
unfolding rank_bounds
rank_bounds_ceil count r h small =
    let low = rank_ceil count r.low (ground arith) small in
    let high = rank_ceil count r.high (ground arith) small in (low.0, low.1, high.0, high.1)

rank_exact :
    (k percent : ℕ) → percent ≤ 100 → k * 10000 + 99 < 2 ^ 64 → rank (100 * k) percent ≡ k * percent
unfolding rank
rank_exact k percent h small = omega (arith, mul_mono k percent 100 h)

-- If a hundred divides the population, the range passes `validate` and the saturation of `usize` is not
-- reached, each percent is exactly one hundredth of the population.
pub rank_bounds_exact :
    (k : ℕ) (r : PercentileRange)
    → is_invalid r ≡ false
    → k * 10000 + 99 < 2 ^ 64
    → rank_bounds (100 * k) r ≡ (k * r.low, k * r.high)
unfolding rank_bounds
rank_bounds_exact k r h small =
    rw (rank_exact k r.low (ground arith) small, rank_exact k r.high (ground arith) small)
