-- ===== src/Collector/Order.antt =====
-- The order in which `finish` drains its maps: no source invocation shares its id with another, and
-- none is open in the other map.
use mathlib.Core.List.{Perm}
use mathlib.Core.List.Perm
use native.Mathlib.Decide.{ℕ_discrete}
use slice.Base.{
  ℕ, ◌≡◌, refl, sym, subst, ap, ◌∙◌, ◌||◌, List, [], ◌∷◌, map, Nodup, Bool-cases, Option-cases, inl,
  inr, ltb,
}
use slice.Collector.{State, SourceInvocation, ActiveInvocation, PendingSample}
use slice.Collector.Finish.{
  emit_sample, emit_samples, emit_known, emit, emit_all, invalidate, invalidate_all, is_hit,
  finish_sources, finish, close_active, is_valid_end,
}
use slice.Collector.Stacks.{append_sample, intern, id_of}
use slice.Core.Profile.{Profile}
use slice.Data.Maps.{keys, values}
use slice.Data.Sort.Unique.{sort_unique}

SourceInvocation-IsSet : IsSet SourceInvocation
SourceInvocation-IsSet = hlevel ℕ_discrete

append_sample_active :
    (s : State) (id : ℕ) (x : PendingSample) → (append_sample s id x).0.active ≡ s.0.active
unfolding append_sample intern
append_sample_active (c, p) id x = elim (Option-cases (id_of x.frames c.stack_ids)) [
  | inl unknown ↦ rw (unknown, append_sample, intern) refl
  | inr (k, known) ↦ rw (known, append_sample, intern) refl
]

emit_sample_active :
    (id start_ns end_ns : ℕ) (x : PendingSample) (s : State)
    → (emit_sample id start_ns end_ns x s).0.active ≡ s.0.active
unfolding emit_sample
emit_sample_active id start_ns end_ns x (c, p) =
    elim (Bool-cases (ltb x.timestamp_ns start_ns || ltb end_ns x.timestamp_ns)) [
      | inl e ↦ rw (e, emit_sample) refl
      | inr e ↦ rw (e, emit_sample) (append_sample_active (c, p) id x)
    ]

emit_samples_active :
    (id start_ns end_ns : ℕ) (xs : List PendingSample) (s : State)
    → (emit_samples id start_ns end_ns xs s).0.active ≡ s.0.active
unfolding emit_samples
emit_samples_active id start_ns end_ns [] s = refl
emit_samples_active id start_ns end_ns (x ∷ xs) s =
    emit_samples_active id start_ns end_ns xs (emit_sample id start_ns end_ns x s)
    ∙ emit_sample_active id start_ns end_ns x s

emit_known_active :
    (i : SourceInvocation) (f start_ns end_ns : ℕ) (s : State)
    → (emit_known i f start_ns end_ns s).0.active ≡ s.0.active
unfolding emit_known
emit_known_active i f start_ns end_ns (c, p) = elim (Bool-cases (is_valid_end i start_ns end_ns)) [
  | inl e ↦ rw (e, emit_known) (emit_samples_active i.id start_ns end_ns i.samples (c, _))
  | inr e ↦ rw (e, emit_known) refl
]

emit_active : (t : ℕ) (i : SourceInvocation) (s : State) → (emit t i s).0.active ≡ s.0.active
unfolding emit
emit_active t i s = elim (Option-cases i.function_id) [
  | inl e ↦ rw (e, emit) refl
  | inr (f, e) ↦ elim (Option-cases i.start_ns) [
    | inl e' ↦ rw (e, e', emit) refl
    | inr (start_ns, e') ↦ rw (e, e', emit) (emit_known_active i f start_ns _ s)
  ]
]

emit_all_active :
    (t : ℕ) (is : List SourceInvocation) (s : State) → (emit_all t is s).0.active ≡ s.0.active
unfolding emit_all
emit_all_active t [] s = refl
emit_all_active t (i ∷ is) s = emit_all_active t is (emit t i s) ∙ emit_active t i s

-- Each entry of the map has the id that it stands under, and no id comes twice.
pub record IsKeyed (m : List (ℕ × SourceInvocation)) : Type 0 where
  pub same_ids : map (λ i. i.id) (values m) ≡ keys m
  pub distinct : Nodup (keys m)

-- A violation keeps the ids.
invalidate-keys :
    (v : ℕ × ℕ) (m : List (ℕ × SourceInvocation)) (p : Profile)
    → (keys (invalidate v (m, p)).0 ≡ keys m)
      × (map (λ i. i.id) (values (invalidate v (m, p)).0) ≡ map (λ i. i.id) (values m))
unfolding invalidate
invalidate-keys v [] p = (refl, refl)
invalidate-keys v ((k, i) ∷ m) p = elim (Bool-cases (is_hit v i)) [
  | inl e ↦ let r = invalidate-keys v m _ in rw e (ap (λ ks. k ∷ ks) r.0, ap (λ ks. i.id ∷ ks) r.1)
  | inr e ↦ let r = invalidate-keys v m p in rw e (ap (λ ks. k ∷ ks) r.0, ap (λ ks. i.id ∷ ks) r.1)
]

invalidate-IsKeyed :
    (v : ℕ × ℕ) (m : List (ℕ × SourceInvocation)) (p : Profile)
    → IsKeyed m
    → IsKeyed (invalidate v (m, p)).0
invalidate-IsKeyed v m p h =
    let (same, ids) = invalidate-keys v m p in
    record { same_ids = ids ∙ h.same_ids ∙ sym same; distinct = subst Nodup (sym same) h.distinct }

invalidate_all-IsKeyed :
    (vs : List (ℕ × ℕ)) (m : List (ℕ × SourceInvocation)) (p : Profile)
    → IsKeyed m
    → IsKeyed (invalidate_all vs (m, p)).0
unfolding invalidate_all
invalidate_all-IsKeyed [] m p h = h
invalidate_all-IsKeyed (v ∷ vs) m p h =
    invalidate_all-IsKeyed vs (invalidate v (m, p)).0 (invalidate v (m, p)).1
      (invalidate-IsKeyed v m p h)

module _ (drain drain' : List SourceInvocation → List SourceInvocation)
    (drain-Perm : (is : List SourceInvocation) → Perm (drain is) is)
    (drain'-Perm : (is : List SourceInvocation) → Perm (drain' is) is)
    (iterate iterate' : List ActiveInvocation → List ActiveInvocation)
    (iterate-Perm : (as' : List ActiveInvocation) → Perm (iterate as') as')
    (iterate'-Perm : (as' : List ActiveInvocation) → Perm (iterate' as') as') where
  finish_sources_order :
      (s : State) (t : ℕ)
      → IsKeyed s.0.source_invocations
      → finish_sources drain t s ≡ finish_sources drain' t s
  unfolding finish_sources
  finish_sources_order (c, p) t h =
      let m = (invalidate_all c.source_violations (c.source_invocations, p)).0 in
      let p' = (invalidate_all c.source_violations (c.source_invocations, p)).1 in
      let k = invalidate_all-IsKeyed c.source_violations c.source_invocations p h in
      let ids' = λ (i : SourceInvocation). i.id in
      let distinct : Nodup (map ids' (drain' (values m))) =
        Perm.nodup (Perm.map ids' (Perm.symm (drain'-Perm (values m))))
          (subst Nodup (sym k.same_ids) k.distinct) in
      let both = Perm.trans (drain-Perm (values m)) (Perm.symm (drain'-Perm (values m))) in
      ap (λ is. emit_all t is (c, p'))
        (sort_unique ids' SourceInvocation-IsSet (drain (values m)) (drain' (values m)) both
          distinct)

  finish_sources_active : (s : State) (t : ℕ) → (finish_sources drain t s).0.active ≡ s.0.active
  unfolding finish_sources
  finish_sources_active (c, p) t = emit_all_active t _ (c, _)

  -- With no active invocation the two orders make no difference.
  idle_order :
      (as' : List (ℕ × ActiveInvocation)) → as' ≡ [] → iterate (values as') ≡ iterate' (values as')
  idle_order as' idle =
      ap (λ m. iterate (values m)) idle
      ∙ Perm.eq-nil (iterate-Perm [])
      ∙ sym (Perm.eq-nil (iterate'-Perm []))
      ∙ sym (ap (λ m. iterate' (values m)) idle)

  pub finish_order :
      (s : State) (t : ℕ)
      → IsKeyed s.0.source_invocations
      → s.0.active ≡ []
      → finish drain iterate s t ≡ finish drain' iterate' s t
  unfolding finish
  finish_order (c, p) t keyed idle = elim (Bool-cases c.source_mode) [
    | inl e ↦
        let same = finish_sources_order (c, p) t keyed in
        let r = finish_sources drain t (c, p) in
        let idle' = idle_order r.0.active (finish_sources_active (c, p) t ∙ idle) in
        simp (e, finish)
          (ap (λ as'. close_active t as' r.1) idle'
            ∙ ap (λ (s : State). close_active t (iterate' (values s.0.active)) s.1) same)
    | inr e ↦ simp (e, finish) (ap (λ as'. close_active t as' p) (idle_order c.active idle))
  ]
