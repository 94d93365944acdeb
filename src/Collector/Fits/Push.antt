-- ===== src/Collector/Fits/Push.antt =====
-- `push` of an event that fits, in source mode.
use slice.Base.{
  ℕ, ◌+◌, ◌≤◌, ◌≡◌, refl, ap, true, Option, none, some, List, [], ◌∷◌, ◌++◌, length, length-append,
  arith, Bool-cases, inl, inr,
}
use slice.Collector.{
  State, Correlator, SourceInvocation, PendingSample, CollectorEvent, entry, return, violation,
  sample, dropped_events, dropped_samples, with_quality, count_event, count_mismatch, count_sample,
}
use slice.Collector.Fits.{Plan, EventFits, SourceFits, IsBlank, IsCollecting}
use slice.Collector.Fits.Entries.{
  update-MapFits, pending-update, enter-SourceFits, leave-SourceFits, pend-SourceFits,
}
use slice.Collector.Push.{push, local_violation}
use slice.Collector.Source.{unseen, enter, leave, pend, source_entry, source_return, source_sample}
use slice.Core.Profile.{Profile, CaptureQuality}
use slice.Data.Maps.{get, update_or_insert}
use slice.Data.Words.{sat_add}

enter_samples : (f tid t : ℕ) (i : SourceInvocation) → (enter f tid t i).samples ≡ i.samples
unfolding enter
enter_samples f tid t i = elim (Bool-cases i.saw_entry) [
  | inl e ↦ rw (e, enter) refl
  | inr e ↦ rw (e, enter) refl
]

leave_samples : (f tid t : ℕ) (i : SourceInvocation) → (leave f tid t i).samples ≡ i.samples
unfolding leave
leave_samples f tid t i = refl

module _ (plan : Plan) where
  unseen-SourceFits :
      (key tid : ℕ) (f s e : Option ℕ)
      → tid ≡ plan.tid_of key
      → ((g : ℕ) → f ≡ some g → g ≡ plan.function.id)
      → ((t : ℕ) → s ≡ some t → t ≤ plan.border key)
      → ((t : ℕ) → e ≡ some t → plan.border key ≤ t)
      → SourceFits plan key (unseen key tid f s e)
  unseen-SourceFits key tid f s e a b c d = record {
    same_id = refl;
    same_tid = a;
    same_function = b;
    starts = c;
    ends = d;
    samples_fit = tt;
  }

  pub IsBlank-quality :
      (p : Profile) (f : CaptureQuality → CaptureQuality)
      → IsBlank plan p
      → IsBlank plan (with_quality f p)
  IsBlank-quality p f b = record {
    version = b.version;
    one_function = b.one_function;
    no_invocations = b.no_invocations;
    no_stacks = b.no_stacks;
    no_samples = b.no_samples;
  }

  -- The events that name an invocation: an update of its entry, with the profile's counters.
  update-IsCollecting :
      (n key d : ℕ) (v : SourceInvocation) (f : SourceInvocation → SourceInvocation)
      (c : Correlator) (p : Profile) (q : CaptureQuality → CaptureQuality)
      → d ≤ 1
      → SourceFits plan key (f v)
      → ((i : SourceInvocation) → SourceFits plan key i → SourceFits plan key (f i))
      → length (f v).samples ≡ d
      → ((i : SourceInvocation) → length (f i).samples ≡ length i.samples + d)
      → sat_add p.quality.samples_generated d ≤ (q p.quality).samples_generated
      → IsCollecting plan n (c, p)
      → IsCollecting plan (n + 1) (
        record c {
          source_mode = true;
          source_invocations = update_or_insert key v f c.source_invocations;
        },
        with_quality q p,
      )
  update-IsCollecting n key d v f c p q small start keep a b grows h =
      let more = pending-update key d v f a b c.source_invocations in
      record {
        no_active = h.no_active;
        first_stack = h.first_stack;
        no_stack_ids = h.no_stack_ids;
        sources = update-MapFits plan key v f start keep c.source_invocations h.sources;
        blank = IsBlank-quality p q h.blank;
        bounded = omega (arith, more, h.bounded, small);
        counted = omega (arith, more, h.counted, grows);
      }

  -- An event that leaves the invocations alone.
  pub quality-IsCollecting :
      (n : ℕ) (c : Correlator) (p : Profile) (vs : List (ℕ × ℕ))
      (q : CaptureQuality → CaptureQuality)
      → p.quality.samples_generated ≤ (q p.quality).samples_generated
      → IsCollecting plan n (c, p)
      → IsCollecting plan (n + 1) (record c { source_violations = vs }, with_quality q p)
  quality-IsCollecting n c p vs q grows h = record {
    no_active = h.no_active;
    first_stack = h.first_stack;
    no_stack_ids = h.no_stack_ids;
    sources = h.sources;
    blank = IsBlank-quality p q h.blank;
    bounded = omega (arith, h.bounded);
    counted = omega (arith, h.counted, grows);
  }

  violation-IsCollecting :
      (n : ℕ) (c : Correlator) (p : Profile) (tid t : ℕ)
      → IsCollecting plan n (c, p)
      → IsCollecting plan n (local_violation (c, p) tid t)
  unfolding local_violation
  violation-IsCollecting n c p tid t h =
      let none_active : get tid c.active ≡ none = ap (get tid) h.no_active in
      rw (none_active, local_violation)
        (record {
          no_active = h.no_active;
          first_stack = h.first_stack;
          no_stack_ids = h.no_stack_ids;
          sources = h.sources;
          blank = IsBlank-quality p count_mismatch h.blank;
          bounded = h.bounded;
          counted = h.counted;
        })

  pub push-IsCollecting :
      (n : ℕ) (s : State) (e : CollectorEvent)
      → EventFits plan e
      → IsCollecting plan n s
      → IsCollecting plan (n + 1) (push s e)
  unfolding push source_entry source_return source_sample
  push-IsCollecting n (c, p) (entry none f tid t) e h = absurd e
  push-IsCollecting n (c, p) (entry (some id) f tid t) e h =
      let v = unseen id tid (some f) (some t) none in
      let start =
        unseen-SourceFits id tid (some f) (some t) none e.1 (λ g x. ground (arith, e.0))
          (λ g x. ground (arith, e.2)) (λ g x. cc) in
      update-IsCollecting n id 0 v (enter f tid t) c p count_event (omega arith)
        (enter-SourceFits plan id f tid t v e.0 e.1 e.2 start)
        (λ i k. enter-SourceFits plan id f tid t i e.0 e.1 e.2 k)
        (omega (arith, ap length (enter_samples f tid t v)))
        (λ i. omega (arith, ap length (enter_samples f tid t i))) (omega arith) h
  push-IsCollecting n (c, p) (return none f tid t) e h = absurd e
  push-IsCollecting n (c, p) (return (some id) f tid t) e h =
      let v = unseen id tid (some f) none (some t) in
      let start =
        unseen-SourceFits id tid (some f) none (some t) e.1 (λ g x. ground (arith, e.0)) (λ g x. cc)
          (λ g x. ground (arith, e.2)) in
      update-IsCollecting n id 0 v (leave f tid t) c p count_event (omega arith)
        (leave-SourceFits plan id f tid t v e.0 e.2 start)
        (λ i k. leave-SourceFits plan id f tid t i e.0 e.2 k)
        (omega (arith, ap length (leave_samples f tid t v)))
        (λ i. omega (arith, ap length (leave_samples f tid t i))) (omega arith) h
  push-IsCollecting n (c, p) (violation tid t) e h = violation-IsCollecting (n + 1) _ _ tid t (
      quality-IsCollecting n c p (c.source_violations ++ (tid, t) ∷ []) count_event (omega arith) h)
  push-IsCollecting n (c, p) (sample none tid t cpu st w fs) e h = absurd e
  push-IsCollecting n (c, p) (sample (some id) tid t cpu st w fs) e h =
      let x : PendingSample = record {
        tid = tid;
        timestamp_ns = t;
        cpu = cpu;
        state = st;
        weight_ns = w;
        frames = fs;
      } in
      let v = unseen id tid none none none in
      let start = unseen-SourceFits id tid none none none e.0 (λ g y. cc) (λ g y. cc) (λ g y. cc) in
      update-IsCollecting n id 1 v (pend x) c p count_sample (omega arith)
        (pend-SourceFits plan id x v e start) (λ i k. pend-SourceFits plan id x i e k) refl
        (λ i. length-append i.samples (x ∷ [])) (omega arith) h
  push-IsCollecting n (c, p) (dropped_events k) e h =
      quality-IsCollecting n c p c.source_violations
        (λ q. record q { events_dropped = sat_add q.events_dropped k }) (omega arith) h
  push-IsCollecting n (c, p) (dropped_samples k) e h =
      quality-IsCollecting n c p c.source_violations
        (λ q. record q { samples_dropped = sat_add q.samples_dropped k }) (omega arith) h
