-- ===== src/Ebpf/Host/Cpus.antt =====
-- crates/slice-ebpf/src/lib.rs: `available_cpu_ids`.
use slice.Base.{
  ℕ, suc, zero, ◌+◌, ◌-◌, Bool, true, false, not, Option, none, some, List, [], ◌∷◌, ◌++◌, select,
  ltb, Result, ok, err, or_fail, guard, ◌>>=◌, ◌>>◌,
}
use slice.Data.Numerals.{parse_unsigned, trim, split, split_once}
use slice.Data.Text.{Text}
use slice.Data.Words.{u64_max}

pub data CpuError : Type 0 where
  unknown_parallelism : CpuError
  bad_range : Text → CpuError
  reversed_range : Text → CpuError
  no_cpus : CpuError

-- `count` numbers from `first` on.
abbrev pub count_up : (first count : ℕ) → List ℕ
count_up first zero = []
count_up first (suc count) = first ∷ count_up (first + 1) count

abbrev pub is_empty : Text → Bool
is_empty text = elim text [ [] ↦ true | c ∷ s ↦ false ]

-- `first-last`, or one number for both.
abbrev ends_of : Text → Text × Text
ends_of range = elim (split_once 45 range) [ none ↦ (range, range) | some ends ↦ ends ]

unfoldable pub cpus_of : Text → Result CpuError (List ℕ)
cpus_of range = do
  first ← or_fail (parse_unsigned u64_max (ends_of range).0) (bad_range range)
  last ← or_fail (parse_unsigned u64_max (ends_of range).1) (bad_range range)
  guard (not (ltb last first)) (reversed_range range)
  ok (count_up first (last + 1 - first))

unfoldable pub cpus_of_all : List Text → Result CpuError (List ℕ)
cpus_of_all [] = ok []
cpus_of_all (range ∷ ranges) = do cpus ← cpus_of range; rest ← cpus_of_all ranges; ok (cpus ++ rest)

abbrev some_cpus : List ℕ → Result CpuError (List ℕ)
some_cpus [] = err no_cpus
some_cpus (cpu ∷ cpus) = ok (cpu ∷ cpus)

-- The CPUs that are online, or as many as there is parallelism where the file cannot be read.
unfoldable pub available_cpu_ids : Option Text → Option ℕ → Result CpuError (List ℕ)
available_cpu_ids none none = err unknown_parallelism
available_cpu_ids none (some parallelism) = ok (count_up 0 parallelism)
available_cpu_ids (some online) parallelism =
    cpus_of_all (select (λ range. not (is_empty range)) (split 44 (trim online))) >>= some_cpus
