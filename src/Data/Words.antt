-- ===== src/Data/Words.antt =====
-- Saturating arithmetic of `u64` and `usize` on x86-64, and of `u32`.
use slice.Base.{ℕ, ◌+◌, ◌*◌, ◌-◌, ◌^◌, ◌≡◌, min, arith}

abbrev pub u64_max : ℕ
u64_max = 2 ^ 64 - 1

abbrev pub u32_max : ℕ
u32_max = 2 ^ 32 - 1

-- `saturating_add` and `saturating_mul` of `u64` and of `usize`.
abbrev pub sat_add : ℕ → ℕ → ℕ
sat_add a b = min (a + b) u64_max

abbrev pub sat_mul : ℕ → ℕ → ℕ
sat_mul a b = min (a * b) u64_max

abbrev pub sat_add_u32 : ℕ → ℕ → ℕ
sat_add_u32 a b = min (a + b) u32_max

pub sat_add_assoc : (a b c : ℕ) → sat_add (sat_add a b) c ≡ sat_add a (sat_add b c)
sat_add_assoc a b c = omega arith
