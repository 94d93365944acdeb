-- ===== src/Collector/Fits/Outcome.antt =====
-- The profile that `finish` returns after events that fit.
use mathlib.Core.List.{Perm, append-nil, Nodup-nil}
use mathlib.Core.List.Perm
use slice.Base.{
  ℕ, ◌+◌, ◌≤◌, ◌<◌, ◌≡◌, sym, subst, ap, ◌∙◌, List, [], ◌∷◌, All, Nodup, length, arith, Bool-cases,
  inl, inr, min,
}
use slice.Collector.{State, Correlator, SourceInvocation, ActiveInvocation, count_async_violation}
use slice.Collector.Finish.{finish, finish_sources, close_active, invalidate_all, id_leb}
use slice.Collector.Fits.{Plan, FrameFits, IsBlank, IsCollecting, pending}
use slice.Collector.Fits.Drain.{
  invalidate_all-holds, invalidate_all-IsKept, drained-fit, drained-Nodup, drained-pending,
}
use slice.Collector.Fits.Emission.{IsEmitting, IsClosed}
use slice.Collector.Fits.Finish.{emit_all-IsEmitting}
use slice.Collector.Fits.Push.{IsBlank-quality}
use slice.Core.Profile.{Profile}
use slice.Core.Validate.Spec.{invocation_ids, stack_ids, IsSoundSample}
use slice.Data.Maps.{values}
use slice.Data.Sort.{sort}
use slice.Data.Words.{u32_max, u64_max}

module _ (plan : Plan) where
  -- All that a well-formed profile asks of the records, the threads aside.
  pub record IsRecorded (p : Profile) : Type 0 where
    pub version : p.format_version ≡ 1
    pub one_function : p.functions ≡ plan.function ∷ []
    pub closed : All (IsClosed plan) p.invocations
    pub distinct : Nodup (invocation_ids p)
    pub stacks_distinct : Nodup (stack_ids p)
    pub frames_fit : All (λ st. All (FrameFits plan) st.frames) p.stacks
    pub taken : All (IsSoundSample p) p.samples
    pub generated : length p.samples ≤ p.quality.samples_generated

  emitted-IsRecorded : (s : State) → IsEmitting plan 0 [] s → IsRecorded s.1
  emitted-IsRecorded s h = record {
    version = h.version;
    one_function = h.one_function;
    closed = h.closed;
    distinct = h.distinct;
    stacks_distinct = h.stacks_distinct;
    frames_fit = h.frames_fit;
    taken = h.taken;
    generated = omega (arith, h.generated);
  }

  -- Before anything is emitted.
  blank-IsEmitting :
      (n : ℕ) (rest : List ℕ) (c : Correlator) (p : Profile)
      → Nodup rest
      → IsBlank plan p
      → c.active ≡ []
      → c.stack_ids ≡ []
      → c.next_stack_id + n ≤ u32_max
      → n ≤ p.quality.samples_generated
      → IsEmitting plan n rest (c, p)
  blank-IsEmitting n rest c p distinct b idle interned room generated = record {
    idle = idle;
    version = b.version;
    one_function = b.one_function;
    closed = subst (All (IsClosed plan)) (sym b.no_invocations) tt;
    distinct = rw (b.no_invocations, append-nil rest) distinct;
    stacks_below = subst (All _) (sym b.no_stacks) tt;
    stacks_distinct = rw b.no_stacks Nodup-nil;
    frames_fit = subst (All _) (sym b.no_stacks) tt;
    interned = subst (All _) (sym interned) tt;
    taken = subst (All (IsSoundSample p)) (sym b.no_samples) tt;
    room = room;
    generated = omega (arith, ap length b.no_samples, generated);
  }

module _ (plan : Plan) (drain : List SourceInvocation → List SourceInvocation)
    (drain-Perm : (is : List SourceInvocation) → Perm (drain is) is)
    (iterate : List ActiveInvocation → List ActiveInvocation)
    (iterate-Perm : (as' : List ActiveInvocation) → Perm (iterate as') as') where
  finish_sources-IsEmitting :
      (n t : ℕ) (c : Correlator) (p : Profile)
      → n < u32_max
      → IsCollecting plan n (c, p)
      → IsEmitting plan 0 [] (finish_sources drain t (c, p))
  unfolding finish_sources
  finish_sources-IsEmitting n t c p small h =
      let vs = c.source_violations in
      let m = c.source_invocations in
      let m' = (invalidate_all vs (m, p)).0 in
      let p' = (invalidate_all vs (m, p)).1 in
      let kept = invalidate_all-IsKept plan vs m p in
      let fit = kept.fit h.sources.entries in
      let distinct = subst Nodup (sym kept.same_keys) h.sources.distinct in
      let same = drained-pending plan drain drain-Perm m' in
      let blank =
        invalidate_all-holds (IsBlank plan) (λ q b. IsBlank-quality plan q count_async_violation b)
          vs m p h.blank in
      let generated =
        invalidate_all-holds (λ q. min (pending (values m)) u64_max ≤ q.quality.samples_generated)
          (λ q b. b) vs m p h.counted in
      emit_all-IsEmitting plan t (sort id_leb (drain (values m'))) (c, p')
        (drained-fit plan drain drain-Perm m' fit)
        (blank-IsEmitting plan (pending (sort id_leb (drain (values m')))) _ c p'
          (drained-Nodup plan drain drain-Perm m' fit distinct) blank h.no_active h.no_stack_ids
          (omega (arith, same, kept.same_pending, h.bounded, h.first_stack, small))
          (omega (arith, same, kept.same_pending, h.bounded, generated, small)))

  idle_close :
      (t : ℕ) (c : Correlator) (p : Profile)
      → c.active ≡ []
      → close_active t (iterate (values c.active)) p ≡ p
  unfolding close_active
  idle_close t c p idle =
      let none_left = ap (λ m. iterate (values m)) idle ∙ Perm.eq-nil (iterate-Perm []) in
      ap (λ as'. close_active t as' p) none_left

  -- Events that fit leave no invocation open, so `finish` adds nothing to what it emits.
  pub finish-IsRecorded :
      (n t : ℕ) (s : State)
      → n < u32_max
      → IsCollecting plan n s
      → IsRecorded plan (finish drain iterate s t)
  unfolding finish
  finish-IsRecorded n t (c, p) small h = elim (Bool-cases c.source_mode) [
    | inl e ↦
        let s' = finish_sources drain t (c, p) in
        let emitted = finish_sources-IsEmitting n t c p small h in
        simp (e, finish)
          (subst (IsRecorded plan) (sym (idle_close t s'.0 s'.1 emitted.idle))
            (emitted-IsRecorded plan s' emitted))
    | inr e ↦
        let emitted =
          blank-IsEmitting plan 0 [] c p Nodup-nil h.blank h.no_active h.no_stack_ids
            (omega (arith, h.first_stack)) (omega arith) in
        simp (e, finish)
          (subst (IsRecorded plan) (sym (idle_close t c p h.no_active))
            (emitted-IsRecorded plan (c, p) emitted))
  ]
