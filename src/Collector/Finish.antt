-- ===== src/Collector/Finish.antt =====
-- crates/slice-collector/src/lib.rs: `Correlator::finish`. A `HashMap` gives its entries in an order
-- of its own: `drain` and `iterate` are the two orders in which `finish` meets them.
use slice.Base.{
  ℕ, Bool, false, ◌&&◌, ◌||◌, Option, none, some, List, [], ◌∷◌, ltb, leb, ◌==◌, if◌then◌else◌, max,
  is_some_and, is_none_or,
}
use slice.Collector.{
  State, ActiveInvocation, PendingSample, SourceInvocation, with_quality, count_complete,
  count_incomplete, count_mismatch, count_async_violation,
}
use slice.Collector.Push.{close, add_invocation}
use slice.Collector.Stacks.{append_sample}
use slice.Core.Profile.{Profile, Invocation}
use slice.Data.Maps.{values}
use slice.Data.Sort.{sort}

-- Did the violation fall into the invocation?
unfoldable pub is_hit : ℕ × ℕ → SourceInvocation → Bool
is_hit (tid, at_ns) i =
    i.tid == tid
    && is_some_and (λ start. leb start at_ns && is_none_or (λ end_ns. leb at_ns end_ns) i.end_ns)
        i.start_ns

-- One violation against all source invocations.
unfoldable pub invalidate :
    ℕ × ℕ → List (ℕ × SourceInvocation) × Profile → List (ℕ × SourceInvocation) × Profile
invalidate v ([], p) = ([], p)
invalidate v ((k, i) ∷ m, p) =
    let hit = is_hit v i in
    let (m', p') = invalidate v (m, if hit then with_quality count_async_violation p else p) in
    ((k, if hit then record i { valid = false } else i) ∷ m', p')

unfoldable pub invalidate_all :
    List (ℕ × ℕ) → List (ℕ × SourceInvocation) × Profile → List (ℕ × SourceInvocation) × Profile
invalidate_all [] s = s
invalidate_all (v ∷ vs) s = invalidate_all vs (invalidate v s)

-- A sample of a valid invocation: one outside its bounds is a mismatch.
unfoldable pub emit_sample : (invocation_id start_ns end_ns : ℕ) → PendingSample → State → State
emit_sample id start_ns end_ns x (c, p) =
    if ltb x.timestamp_ns start_ns || ltb end_ns x.timestamp_ns
    then (c, with_quality count_mismatch p)
    else append_sample (c, p) id x

unfoldable pub emit_samples :
    (invocation_id start_ns end_ns : ℕ) → List PendingSample → State → State
emit_samples id start_ns end_ns [] s = s
emit_samples id start_ns end_ns (x ∷ xs) s =
    emit_samples id start_ns end_ns xs (emit_sample id start_ns end_ns x s)

abbrev pub or_else : Option ℕ → ℕ → ℕ
or_else none d = d
or_else (some x) d = x

abbrev pub is_valid_end : SourceInvocation → (start_ns end_ns : ℕ) → Bool
is_valid_end i start_ns end_ns = i.valid && ((i.saw_entry && i.saw_return) && leb start_ns end_ns)

-- The record of an invocation whose function and start are known.
abbrev pub record_of : SourceInvocation → (function_id start_ns end_ns : ℕ) → Invocation
record_of i function_id start_ns end_ns = record {
  id = i.id;
  function_id = function_id;
  parent_id = none;
  tid = i.tid;
  start_ns = start_ns;
  end_ns = end_ns;
  complete = i.saw_entry && i.saw_return;
  valid = is_valid_end i start_ns end_ns;
}

unfoldable pub emit_known : SourceInvocation → (function_id start_ns end_ns : ℕ) → State → State
emit_known i function_id start_ns end_ns (c, p) =
    let p' = add_invocation (record_of i function_id start_ns end_ns) p in
    if is_valid_end i start_ns end_ns
    then emit_samples i.id start_ns end_ns i.samples (c, with_quality count_complete p')
    else (
      c,
      with_quality
          (λ q.
            if i.saw_entry && i.saw_return
            then count_mismatch (count_incomplete q)
            else count_incomplete q)
          p',
    )

-- One round of the loop over the drained invocations.
unfoldable pub emit : (timestamp_ns : ℕ) → SourceInvocation → State → State
emit timestamp_ns i s = elim i.function_id [
  | none ↦ s
  | some function_id ↦ elim i.start_ns [
    | none ↦ s
    | some start_ns ↦
        emit_known i function_id start_ns (or_else i.end_ns (max timestamp_ns start_ns)) s
  ]
]

unfoldable pub emit_all : (timestamp_ns : ℕ) → List SourceInvocation → State → State
emit_all timestamp_ns [] s = s
emit_all timestamp_ns (i ∷ is) s = emit_all timestamp_ns is (emit timestamp_ns i s)

abbrev pub id_leb : SourceInvocation → SourceInvocation → Bool
id_leb i j = leb i.id j.id

-- The part of `finish` that is for source mode.
unfoldable pub finish_sources :
    (List SourceInvocation → List SourceInvocation) → (timestamp_ns : ℕ) → State → State
finish_sources drain timestamp_ns (c, p) =
    let (m, p') = invalidate_all c.source_violations (c.source_invocations, p) in
    emit_all timestamp_ns (sort id_leb (drain (values m))) (c, p')

-- What is still active is recorded as incomplete.
unfoldable pub close_active : (timestamp_ns : ℕ) → List ActiveInvocation → Profile → Profile
close_active timestamp_ns [] p = p
close_active timestamp_ns (a ∷ as') p = close_active timestamp_ns as' (
    with_quality count_incomplete
      (add_invocation (close a a.tid (max timestamp_ns a.start_ns) false false) p))

-- `finish` consumes the correlator; only the profile is left.
unfoldable pub finish :
    (drain : List SourceInvocation → List SourceInvocation)
    (iterate : List ActiveInvocation → List ActiveInvocation)
    → State
    → (timestamp_ns : ℕ) → Profile
finish drain iterate (c, p) timestamp_ns =
    let (c', p') = if c.source_mode then finish_sources drain timestamp_ns (c, p) else (c, p) in
    close_active timestamp_ns (iterate (values c'.active)) p'
