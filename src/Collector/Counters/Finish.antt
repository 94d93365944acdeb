-- ===== src/Collector/Counters/Finish.antt =====
-- The quality counters after `finish`.
use slice.Base.{
  ◌∙◌, arith, ℕ, ◌≡◌, refl, Bool, true, false, ◌&&◌, ◌||◌, List, [], ◌∷◌, Bool-cases, Option-cases,
  inl, inr, ltb, leb, max, if◌then◌else◌,
}
use slice.Collector.{
  State, ActiveInvocation, PendingSample, SourceInvocation, with_quality, count_async_violation,
}
use slice.Collector.Counters.{
  IsCounted, recount, count_complete-IsCounted, count_incomplete-IsCounted, append_sample-IsCounted,
}
use slice.Collector.Finish.{
  invalidate, invalidate_all, emit_sample, emit_samples, is_hit, emit_known, emit, emit_all,
  finish_sources, close_active, finish, record_of, is_valid_end, id_leb, or_else,
}
use slice.Collector.Push.{close}
use slice.Core.Profile.{Profile}
use slice.Data.Maps.{values}
use slice.Data.Sort.{sort}

invalidate-IsCounted :
    (v : ℕ × ℕ) (m : List (ℕ × SourceInvocation)) (p : Profile)
    → IsCounted p
    → IsCounted (invalidate v (m, p)).1
unfolding invalidate
invalidate-IsCounted v [] p h = h
invalidate-IsCounted v ((k, i) ∷ m) p h = elim (Bool-cases (is_hit v i)) [
  | inl e ↦ rw e (
      invalidate-IsCounted v m (with_quality count_async_violation p)
        (recount p _ h refl refl refl))
  | inr e ↦ rw e (invalidate-IsCounted v m p h)
]

invalidate_all-IsCounted :
    (vs : List (ℕ × ℕ)) (m : List (ℕ × SourceInvocation)) (p : Profile)
    → IsCounted p
    → IsCounted (invalidate_all vs (m, p)).1
unfolding invalidate_all
invalidate_all-IsCounted [] m p h = h
invalidate_all-IsCounted (v ∷ vs) m p h =
    invalidate_all-IsCounted vs (invalidate v (m, p)).0 (invalidate v (m, p)).1
      (invalidate-IsCounted v m p h)

emit_sample-IsCounted :
    (id start_ns end_ns : ℕ) (x : PendingSample) (s : State)
    → IsCounted s.1
    → IsCounted (emit_sample id start_ns end_ns x s).1
unfolding emit_sample
emit_sample-IsCounted id start_ns end_ns x (c, p) h =
    elim (Bool-cases (ltb x.timestamp_ns start_ns || ltb end_ns x.timestamp_ns)) [
      | inl e ↦ rw (e, emit_sample) (recount p _ h refl refl refl)
      | inr e ↦ rw (e, emit_sample) (append_sample-IsCounted (c, p) id x h)
    ]

emit_samples-IsCounted :
    (id start_ns end_ns : ℕ) (xs : List PendingSample) (s : State)
    → IsCounted s.1
    → IsCounted (emit_samples id start_ns end_ns xs s).1
unfolding emit_samples
emit_samples-IsCounted id start_ns end_ns [] s h = h
emit_samples-IsCounted id start_ns end_ns (x ∷ xs) s h =
    emit_samples-IsCounted id start_ns end_ns xs (emit_sample id start_ns end_ns x s)
      (emit_sample-IsCounted id start_ns end_ns x s h)

-- A valid end makes the record complete and valid.
is_valid_end_complete :
    (valid entry return ordered : Bool)
    → ((entry && return) && (valid && ((entry && return) && ordered)))
      ≡ (valid && ((entry && return) && ordered))
is_valid_end_complete valid entry return ordered = ground arith

emit_known-IsCounted :
    (i : SourceInvocation) (function_id start_ns end_ns : ℕ) (s : State)
    → IsCounted s.1
    → IsCounted (emit_known i function_id start_ns end_ns s).1
unfolding emit_known
emit_known-IsCounted i f start_ns end_ns (c, p) h =
    let same = is_valid_end_complete i.valid i.saw_entry i.saw_return (leb start_ns end_ns) in
    elim (Bool-cases (is_valid_end i start_ns end_ns)) [
      | inl e ↦
          let r = count_complete-IsCounted p (record_of i f start_ns end_ns) (same ∙ e) h in
          rw e (
            emit_samples-IsCounted i.id start_ns end_ns i.samples _
              (record { complete = rw e at r.complete; incomplete = rw e at r.incomplete }))
      | inr e ↦
          let r = count_incomplete-IsCounted p (record_of i f start_ns end_ns) (same ∙ e) h in
          elim (Bool-cases (i.saw_entry && i.saw_return)) [
            | inl b ↦
                rw (e, b)
                  (record {
                    complete = rw (e, b) at r.complete;
                    incomplete = rw (e, b) at r.incomplete;
                  })
            | inr b ↦
                rw (e, b)
                  (record {
                    complete = rw (e, b) at r.complete;
                    incomplete = rw (e, b) at r.incomplete;
                  })
          ]
    ]

emit-IsCounted :
    (timestamp_ns : ℕ) (i : SourceInvocation) (s : State)
    → IsCounted s.1
    → IsCounted (emit timestamp_ns i s).1
unfolding emit
emit-IsCounted timestamp_ns i s h = elim (Option-cases i.function_id) [
  | inl e ↦ rw (e, emit) h
  | inr (f, e) ↦ elim (Option-cases i.start_ns) [
    | inl e' ↦ rw (e, e', emit) h
    | inr (start_ns, e') ↦
        rw (e, e', emit)
          (emit_known-IsCounted i f start_ns (or_else i.end_ns (max timestamp_ns start_ns)) s h)
  ]
]

emit_all-IsCounted :
    (timestamp_ns : ℕ) (is : List SourceInvocation) (s : State)
    → IsCounted s.1
    → IsCounted (emit_all timestamp_ns is s).1
unfolding emit_all
emit_all-IsCounted timestamp_ns [] s h = h
emit_all-IsCounted timestamp_ns (i ∷ is) s h =
    emit_all-IsCounted timestamp_ns is (emit timestamp_ns i s) (emit-IsCounted timestamp_ns i s h)

close_active-IsCounted :
    (timestamp_ns : ℕ) (as' : List ActiveInvocation) (p : Profile)
    → IsCounted p
    → IsCounted (close_active timestamp_ns as' p)
unfolding close_active
close_active-IsCounted timestamp_ns [] p h = h
close_active-IsCounted timestamp_ns (a ∷ as') p h =
    close_active-IsCounted timestamp_ns as' _ (
      count_incomplete-IsCounted p (close a a.tid (max timestamp_ns a.start_ns) false false) refl h)

either-IsCounted :
    (b : Bool) (s t : State) → IsCounted s.1 → IsCounted t.1 → IsCounted (if b then s else t).1
either-IsCounted true s t h k = h
either-IsCounted false s t h k = k

module _ (drain : List SourceInvocation → List SourceInvocation)
    (iterate : List ActiveInvocation → List ActiveInvocation) where
  finish_sources-IsCounted :
      (timestamp_ns : ℕ) (s : State)
      → IsCounted s.1
      → IsCounted (finish_sources drain timestamp_ns s).1
  unfolding finish_sources
  finish_sources-IsCounted timestamp_ns (c, p) h =
      let r = invalidate_all c.source_violations (c.source_invocations, p) in
      emit_all-IsCounted timestamp_ns (sort id_leb (drain (values r.0))) (c, r.1)
        (invalidate_all-IsCounted c.source_violations c.source_invocations p h)

  pub finish-IsCounted :
      (s : State) (timestamp_ns : ℕ)
      → IsCounted s.1
      → IsCounted (finish drain iterate s timestamp_ns)
  unfolding finish
  finish-IsCounted (c, p) timestamp_ns h = close_active-IsCounted timestamp_ns _ _ (
      either-IsCounted c.source_mode (finish_sources drain timestamp_ns (c, p)) (c, p)
        (finish_sources-IsCounted timestamp_ns (c, p) h) h)
