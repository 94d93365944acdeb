-- ===== src/Tests/Kept.antt =====
-- What is kept of a round with a sample and its stack.
use slice.Base.{
  ℕ, ◌≡◌, refl, true, Option, none, some, List, [], ◌∷◌, All, Bool, ◌&&◌, ltb, ltb→lt, ◌==◌,
  &&-eq-true, Bool-cases, inl, inr, subst, if◌then◌else◌,
}
use slice.Data.Numerals.{split, lines, strip_suffix}
use slice.Ebpf.Capture.Polls.{delivered, collect_ok, collect-IsTypedStore}
use slice.Ebpf.Capture.{World}
use slice.Ebpf.Events.Wire.{layout}
use slice.Ebpf.Host.{poll_ring}
use slice.Ebpf.Process.{process_exists}
use slice.Ebpf.Resolver.Load.{words_after}
use slice.Ebpf.Ring.Widths.{IsBytes, IsByteDelivery, IsTypedStore}
use slice.Ebpf.Ring.{no_store, receive_all}
use slice.Tests.Sessions.{world, round, no_stack_map, record_of, loop_ends}

are_bytes : List ℕ → Bool
are_bytes [] = true
are_bytes (b ∷ bytes) = ltb b 256 && are_bytes bytes

IsBytes-test : (bytes : List ℕ) → are_bytes bytes ≡ true → IsBytes bytes
unfolding are_bytes
IsBytes-test [] h = tt
IsBytes-test (b ∷ bytes) h =
    let (first, rest) = &&-eq-true _ _ h in (ltb→lt _ _ first, IsBytes-test bytes rest)

-- The BPF map holds stack 3, of one address.
abbrev stack_bytes : List ℕ
stack_bytes = 0x10 ∷ 0x20 ∷ 0x40 ∷ 0 ∷ 0 ∷ 0 ∷ 0 ∷ 0 ∷ 0 ∷ 0 ∷ 0 ∷ 0 ∷ 0 ∷ 0 ∷ 0 ∷ 0 ∷ []

abbrev stack_map : ℕ → Option (List ℕ)
stack_map id = if id == 3 then some stack_bytes else none

abbrev sample_bytes : List ℕ
sample_bytes = layout 3 10 7 1 3 0 5

abbrev sampled_world : World
sampled_world = record world {
  last_polls = λ index.
      round
        (if index == 0 then (stack_map, sample_bytes) ∷ (no_stack_map, record_of 2 9) ∷ [] else []);
}

no_stack_map-IsBytes : (id : ℕ) (raw : List ℕ) → no_stack_map id ≡ some raw → IsBytes raw
no_stack_map-IsBytes id raw e = cc (e)

stack_map-IsBytes : (id : ℕ) (raw : List ℕ) → stack_map id ≡ some raw → IsBytes raw
unfolding are_bytes
stack_map-IsBytes id raw e = elim (Bool-cases (id == 3)) [
  | inl third ↦
      let e' = rw third at e in
      let same : stack_bytes ≡ raw = cc in subst IsBytes same (IsBytes-test stack_bytes refl)
  | inr other ↦ let e' = rw other at e in cc (e')
]

delivered_bytes : All IsByteDelivery (delivered sampled_world)
unfolding process_exists lines split strip_suffix words_after poll_ring are_bytes
delivered_bytes = (
  (IsBytes-test (1 ∷ 2 ∷ []) refl, no_stack_map-IsBytes),
  (
    (IsBytes-test (record_of 1 5) refl, no_stack_map-IsBytes),
    (
      (IsBytes-test sample_bytes refl, stack_map-IsBytes),
      ((IsBytes-test (record_of 2 9) refl, no_stack_map-IsBytes), tt),
    ),
  ),
)

collect-IsTypedStore_example : IsTypedStore (receive_all (delivered sampled_world) no_store)
unfolding poll_ring
collect-IsTypedStore_example =
    collect-IsTypedStore sampled_world (receive_all (delivered sampled_world) no_store)
      delivered_bytes (collect_ok sampled_world loop_ends refl)
