-- ===== src/Core/Query/Population.antt =====
-- The population of a query: the candidates in the order of the key, and the ranks that are taken.
use mathlib.Core.List.{Perm}
use mathlib.Core.List.Perm
use slice.Base.{
  ℕ, ◌-◌, ◌≤◌, ◌<◌, ◌≡◌, refl, true, false, Option, none, some, List, length, take, drop, select,
  All, select-All, ok, arith, le→leb, Mem, contains, contains→Mem, Mem→contains, mem-select,
  is_none_or, ◌↔◌,
}
use slice.Core.Profile.{Profile, Invocation, TimeRange, contains_start}
use slice.Core.Query.{Query, is_candidate, slower_or_equal, candidates, slice_range}
use slice.Data.Sort.{sort-perm, sort-IsSorted, sort-All, IsSorted}

slower_or_equal_total :
    (i j : Invocation) → slower_or_equal i j ≡ false → slower_or_equal j i ≡ true
slower_or_equal_total i j h = ground arith

slower_or_equal_trans :
    (i j k : Invocation)
    → slower_or_equal i j ≡ true
    → slower_or_equal j k ≡ true
    → slower_or_equal i k ≡ true
slower_or_equal_trans i j k h g = ground arith

candidates-IsSorted : (p : Profile) (q : Query) → IsSorted slower_or_equal (candidates p q)
unfolding candidates
candidates-IsSorted p q =
    sort-IsSorted slower_or_equal slower_or_equal_total slower_or_equal_trans _

candidates-All : (p : Profile) (q : Query) → All (λ i. is_candidate q i ≡ true) (candidates p q)
unfolding candidates
candidates-All p q = sort-All slower_or_equal _ _ (select-All (is_candidate q) p.invocations)

pub candidates-perm :
    (p : Profile) (q : Query) → Perm (candidates p q) (select (is_candidate q) p.invocations)
unfolding candidates
candidates-perm p q = sort-perm slower_or_equal _

pub slice_range_ok {ℓ} :
    {A : Type ℓ} (items : List A) (start end : ℕ)
    → start ≤ end
    → end ≤ length items
    → slice_range items (start, end) ≡ ok (take (end - start) (drop start items))
unfolding slice_range
slice_range_ok items start end h k = rw (le→leb start end h, le→leb end _ k) refl

-- The invocations that a query is about: of its function, finished and not invalidated, on one of
-- its threads and begun in its time range, where it names such.
pub record IsCandidate (q : Query) (i : Invocation) : Type 0 where
  pub of_function : i.function_id ≡ q.function_id
  pub completed : i.complete ≡ true
  pub trusted : i.valid ≡ true
  pub on_thread : (tids : List ℕ) → q.threads ≡ some tids → Mem i.tid tids
  pub in_time :
      (t : TimeRange) → q.time ≡ some t → (t.from_ns ≤ i.start_ns) × (i.start_ns < t.to_ns)

is_candidate-IsCandidate : (q : Query) (i : Invocation) → is_candidate q i ≡ true → IsCandidate q i
is_candidate-IsCandidate q i h = record {
  of_function = ground arith;
  completed = ground arith;
  trusted = ground arith;
  on_thread = λ tids e. contains→Mem i.tid tids (ground arith);
  in_time = λ t e. ground arith;
}

thread_test :
    (tid : ℕ) (threads : Option (List ℕ))
    → ((tids : List ℕ) → threads ≡ some tids → Mem tid tids)
    → is_none_or (contains tid) threads ≡ true
thread_test tid none h = refl
thread_test tid (some tids) h = Mem→contains tid tids (h tids refl)

time_test :
    (start_ns : ℕ) (time : Option TimeRange)
    → ((t : TimeRange) → time ≡ some t → (t.from_ns ≤ start_ns) × (start_ns < t.to_ns))
    → is_none_or (λ t. contains_start t start_ns) time ≡ true
time_test start_ns none h = refl
time_test start_ns (some t) h = let b = h t refl in ground arith

IsCandidate-is_candidate : (q : Query) (i : Invocation) → IsCandidate q i → is_candidate q i ≡ true
IsCandidate-is_candidate q i c = ground (
  arith,
  c.of_function,
  c.completed,
  c.trusted,
  thread_test i.tid q.threads c.on_thread,
  time_test i.start_ns q.time c.in_time,
)

mem-candidates :
    (p : Profile) (q : Query) (i : Invocation)
    → Mem i (candidates p q) ↔ (Mem i p.invocations × IsCandidate q i)
mem-candidates p q i = (
  λ m.
      let (known, test) =
        (mem-select (is_candidate q) i p.invocations).0
          ((Perm.mem_iff (candidates-perm p q)).0 m) in
      (known, is_candidate-IsCandidate q i test),
  λ (m, c).
      (Perm.mem_iff (candidates-perm p q)).1
        ((mem-select (is_candidate q) i p.invocations).1 (m, IsCandidate-is_candidate q i c)),
)

-- What `execute_query` selects is the part of the population between the two ranks, when the
-- population is lined up by duration and, among equals, by id.
pub record IsPopulation (p : Profile) (q : Query) (cs : List Invocation) : Type 0 where
  pub members : (i : Invocation) → Mem i cs ↔ (Mem i p.invocations × IsCandidate q i)
  pub arranged : Perm cs (select (is_candidate q) p.invocations)
  pub lined_up : IsSorted slower_or_equal cs

pub candidates-IsPopulation : (p : Profile) (q : Query) → IsPopulation p q (candidates p q)
candidates-IsPopulation p q = record {
  members = mem-candidates p q;
  arranged = candidates-perm p q;
  lined_up = candidates-IsSorted p q;
}
