-- ===== src/Collector/Fits/Finish.antt =====
-- `finish` of source invocations that fit.
use mathlib.Core.List.{Nodup-cons, mem-append, mem-cons}
use mathlib.Core.Logic.Or
use slice.Base.{
  ℕ, suc, ◌+◌, ◌≤◌, ◌≡◌, refl, sym, subst, Bool, true, false, ◌&&◌, ◌||◌, some, List, [], ◌∷◌, map,
  All, All-map, All-append, Mem, length, arith, Bool-cases, Option-cases, inl, inr, ltb,
  if◌then◌else◌, max,
}
use slice.Collector.{
  State, Correlator, PendingSample, SourceInvocation, with_quality, count_mismatch, count_complete,
  count_incomplete,
}
use slice.Collector.Finish.{
  emit_sample, emit_samples, emit_known, emit, emit_all, record_of, is_valid_end, or_else,
}
use slice.Collector.Fits.{Plan, FrameFits, SourceFits, pending}
use slice.Collector.Fits.Emission.{
  IsEmitting, IsClosed, append_sample-IsEmitting, fewer-IsEmitting, append_one-Nodup,
}
use slice.Collector.Push.{add_invocation}
use slice.Collector.Stacks.{append_sample, intern, id_of}
use slice.Core.Profile.{Profile, Invocation, CaptureQuality}

append_sample_invocations :
    (s : State) (id : ℕ) (x : PendingSample)
    → (append_sample s id x).1.invocations ≡ s.1.invocations
unfolding append_sample intern
append_sample_invocations (c, p) id x = elim (Option-cases (id_of x.frames c.stack_ids)) [
  | inl unknown ↦ rw (unknown, append_sample, intern) refl
  | inr (k, known) ↦ rw (known, append_sample, intern) refl
]

emit_sample_invocations :
    (id start_ns end_ns : ℕ) (x : PendingSample) (s : State)
    → (emit_sample id start_ns end_ns x s).1.invocations ≡ s.1.invocations
unfolding emit_sample
emit_sample_invocations id start_ns end_ns x (c, p) =
    elim (Bool-cases (ltb x.timestamp_ns start_ns || ltb end_ns x.timestamp_ns)) [
      | inl e ↦ rw (e, emit_sample) refl
      | inr e ↦ rw (e, emit_sample) (append_sample_invocations (c, p) id x)
    ]

within_bounds :
    (start_ns end_ns t : ℕ)
    → (ltb t start_ns || ltb end_ns t) ≡ false
    → (start_ns ≤ t) × (t ≤ end_ns)
within_bounds start_ns end_ns t e = (ground (arith, e), ground (arith, e))

incomplete_samples :
    (both : Bool) (q : CaptureQuality)
    → (if both then count_mismatch (count_incomplete q) else count_incomplete q).samples_generated
      ≡ q.samples_generated
incomplete_samples true q = refl
incomplete_samples false q = refl

module _ (plan : Plan) where
  -- The counters other than that of the samples play no part.
  quality-IsEmitting :
      (n : ℕ) (rest : List ℕ) (c : Correlator) (p : Profile) (q : CaptureQuality → CaptureQuality)
      → (q p.quality).samples_generated ≡ p.quality.samples_generated
      → IsEmitting plan n rest (c, p)
      → IsEmitting plan n rest (c, with_quality q p)
  quality-IsEmitting n rest c p q same h = record {
    idle = h.idle;
    version = h.version;
    one_function = h.one_function;
    closed = h.closed;
    distinct = h.distinct;
    stacks_below = h.stacks_below;
    stacks_distinct = h.stacks_distinct;
    frames_fit = h.frames_fit;
    interned = h.interned;
    taken = h.taken;
    room = h.room;
    generated = omega (arith, same, h.generated);
  }

  emit_sample-IsEmitting :
      (n : ℕ) (rest : List ℕ) (s : State) (i : Invocation) (x : PendingSample)
      → Mem i s.1.invocations
      → x.tid ≡ i.tid
      → All (FrameFits plan) x.frames
      → IsEmitting plan (suc n) rest s
      → IsEmitting plan n rest (emit_sample i.id i.start_ns i.end_ns x s)
  unfolding emit_sample
  emit_sample-IsEmitting n rest (c, p) i x m same fit h =
      elim (Bool-cases (ltb x.timestamp_ns i.start_ns || ltb i.end_ns x.timestamp_ns)) [
        | inl e ↦
            rw (e, emit_sample)
              (quality-IsEmitting n rest c p count_mismatch refl
                (fewer-IsEmitting plan (suc n) n rest (c, p) (omega arith) h))
        | inr e ↦
            rw (e, emit_sample)
              (append_sample-IsEmitting plan n rest (c, p) i x m same
                (within_bounds i.start_ns i.end_ns x.timestamp_ns e) fit h)
      ]

  emit_samples-IsEmitting :
      (n : ℕ) (rest : List ℕ) (i : Invocation) (xs : List PendingSample) (s : State)
      → Mem i s.1.invocations
      → All (λ x. (x.tid ≡ i.tid) × All (FrameFits plan) x.frames) xs
      → IsEmitting plan (length xs + n) rest s
      → IsEmitting plan n rest (emit_samples i.id i.start_ns i.end_ns xs s)
  unfolding emit_samples
  emit_samples-IsEmitting n rest i [] s m a h =
      fewer-IsEmitting plan (0 + n) n rest s (omega arith) h
  emit_samples-IsEmitting n rest i (x ∷ xs) s m a h =
      let s' = emit_sample i.id i.start_ns i.end_ns x s in
      let kept = emit_sample_invocations i.id i.start_ns i.end_ns x s in
      let first = emit_sample-IsEmitting (length xs + n) rest s i x m a.0.0 a.0.1 (
        fewer-IsEmitting plan (suc (length xs) + n) (suc (length xs + n)) rest s (omega arith) h) in
      emit_samples-IsEmitting n rest i xs s' (subst (λ is. Mem i is) (sym kept) m) a.1 first

  -- The record of an invocation is new, and its samples may follow.
  add_invocation-IsEmitting :
      (n : ℕ) (rest : List ℕ) (c : Correlator) (p : Profile) (i : Invocation)
      → IsClosed plan i
      → IsEmitting plan n (i.id ∷ rest) (c, p)
      → IsEmitting plan n rest (c, add_invocation i p)
  add_invocation-IsEmitting n rest c p i closed h = record {
    idle = h.idle;
    version = h.version;
    one_function = h.one_function;
    closed = All-append _ p.invocations (i ∷ []) h.closed (closed, tt);
    distinct = append_one-Nodup (λ (j : Invocation). j.id) p.invocations i rest h.distinct;
    stacks_below = h.stacks_below;
    stacks_distinct = h.stacks_distinct;
    frames_fit = h.frames_fit;
    interned = h.interned;
    taken =
        All-map _ _ (λ x (m, (j, known, taken)). (m, (j, mem-append.1 (Or.inl known), taken)))
          p.samples h.taken;
    room = h.room;
    generated = h.generated;
  }

  -- An invocation that is left out.
  skip-IsEmitting :
      (n m id : ℕ) (rest : List ℕ) (s : State)
      → m ≤ n
      → IsEmitting plan n (id ∷ rest) s
      → IsEmitting plan m rest s
  skip-IsEmitting n m id rest s le h = fewer-IsEmitting plan n m rest s le (record {
    idle = h.idle;
    version = h.version;
    one_function = h.one_function;
    closed = h.closed;
    distinct = (Nodup-cons.0 h.distinct).1;
    stacks_below = h.stacks_below;
    stacks_distinct = h.stacks_distinct;
    frames_fit = h.frames_fit;
    interned = h.interned;
    taken = h.taken;
    room = h.room;
    generated = h.generated;
  })

  emit_known-IsEmitting :
      (n : ℕ) (rest : List ℕ) (i : SourceInvocation) (f start_ns end_ns : ℕ) (s : State)
      → SourceFits plan i.id i
      → f ≡ plan.function.id
      → start_ns ≤ end_ns
      → IsEmitting plan (length i.samples + n) (i.id ∷ rest) s
      → IsEmitting plan n rest (emit_known i f start_ns end_ns s)
  unfolding emit_known
  emit_known-IsEmitting n rest i f start_ns end_ns (c, p) fits same ordered h =
      let r = λ (valid : Bool). record (record_of i f start_ns end_ns) { valid = valid } in
      let added = λ (valid : Bool).
        add_invocation-IsEmitting (length i.samples + n) rest c p (r valid) (same, refl, ordered)
          h in
      elim (Bool-cases (is_valid_end i start_ns end_ns)) [
        | inl e ↦
            rw (e, emit_known)
              (emit_samples-IsEmitting n rest (r true) i.samples _
                (mem-append.1 (Or.inr (mem-cons.1 (Or.inl refl))))
                (All-map _ _ (λ x (tid, frames). (omega (arith, tid, fits.same_tid), frames))
                  i.samples fits.samples_fit)
                (quality-IsEmitting (length i.samples + n) rest c (add_invocation (r true) p)
                  count_complete refl (added true)))
        | inr e ↦
            rw (e, emit_known)
              (quality-IsEmitting n rest c (add_invocation (r false) p)
                (λ q.
                  if i.saw_entry && i.saw_return
                  then count_mismatch (count_incomplete q)
                  else count_incomplete q)
                (incomplete_samples (i.saw_entry && i.saw_return) p.quality)
                (fewer-IsEmitting plan (length i.samples + n) n rest _ (omega arith) (added false)))
      ]

  ends_later :
      (i : SourceInvocation) (t start_ns : ℕ)
      → SourceFits plan i.id i
      → i.start_ns ≡ some start_ns
      → start_ns ≤ or_else i.end_ns (max t start_ns)
  ends_later i t start_ns fits known = elim (Option-cases i.end_ns) [
    | inl e ↦ rw e (omega arith)
    | inr (end_ns, closed) ↦
        rw closed (omega (arith, fits.starts start_ns known, fits.ends end_ns closed))
  ]

  emit-IsEmitting :
      (n : ℕ) (rest : List ℕ) (t : ℕ) (i : SourceInvocation) (s : State)
      → SourceFits plan i.id i
      → IsEmitting plan (length i.samples + n) (i.id ∷ rest) s
      → IsEmitting plan n rest (emit t i s)
  unfolding emit
  emit-IsEmitting n rest t i s fits h =
      let skipped = skip-IsEmitting (length i.samples + n) n i.id rest s (omega arith) h in
      elim (Option-cases i.function_id) [
        | inl e ↦ rw (e, emit) skipped
        | inr (f, e) ↦ elim (Option-cases i.start_ns) [
          | inl e' ↦ rw (e, e', emit) skipped
          | inr (start_ns, e') ↦
              rw (e, e', emit)
                (emit_known-IsEmitting n rest i f start_ns _ s fits (fits.same_function f e)
                  (ends_later i t start_ns fits e') h)
        ]
      ]

  pub emit_all-IsEmitting :
      (t : ℕ) (is : List SourceInvocation) (s : State)
      → All (λ i. SourceFits plan i.id i) is
      → IsEmitting plan (pending is) (map (λ i. i.id) is) s
      → IsEmitting plan 0 [] (emit_all t is s)
  unfolding emit_all
  emit_all-IsEmitting t [] s fits h = h
  emit_all-IsEmitting t (i ∷ is) s fits h =
      emit_all-IsEmitting t is (emit t i s) fits.1
        (emit-IsEmitting (pending is) (map (λ j. j.id) is) t i s fits.0 h)
