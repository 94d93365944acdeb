-- ===== src/Core/Rank.antt =====
-- crates/slice-core/src/lib.rs: `PercentileRange` and `rank_bounds`. A `usize` has 64 bits.
pub mod Bounds
use slice.Base.{ℕ, ◌+◌, ◌*◌, ◌/◌, ◌≡◌, Bool, ◌||◌, min, leb, ltb, if◌then◌else◌, Result, ok, err}
use slice.Data.Words.{sat_add, sat_mul}

pub record PercentileRange : Type 0 where
  pub low : ℕ
  pub high : ℕ

abbrev pub all_percentiles : PercentileRange
all_percentiles = record { low = 0; high = 100 }

-- The test of `PercentileRange::validate` and of the command line.
abbrev pub is_invalid : PercentileRange → Bool
is_invalid r = leb r.high r.low || ltb 100 r.high

-- The number of the first `percent` hundredths of `count` items, rounded up.
unfoldable pub rank : ℕ → ℕ → ℕ
rank count percent = min (sat_add (sat_mul count percent) 99 / 100) count

unfoldable pub rank_bounds : ℕ → PercentileRange → ℕ × ℕ
unfolding rank
rank_bounds count range = (rank count range.low, rank count range.high)
