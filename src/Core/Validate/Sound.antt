-- ===== src/Core/Validate/Sound.antt =====
-- `validate` accepts exactly the well-formed profiles: each check against its clause of the
-- specification.
use mathlib.Core.List.{Nodup-cons, mem-cons, not-mem-nil, mem-map_of_mem, mem-cons_of_mem}
use mathlib.Core.Logic.Or
use slice.Base.{
  ℕ, ◌≡◌, ◌≢◌, ◌≤◌, refl, sym, subst, ◌∙◌, Bool, true, not, Option, none, some, List, [], ◌∷◌, map,
  Mem, Nodup, contains, contains_iff, find, ◌==◌, ok, guard→true, >>-eq-ok, arith, Bool-cases,
  Option-cases, inl, inr, ltb,
}
use slice.Core.Profile.{Profile, Invocation, Sample, Frame}
use slice.Core.Validate.{
  Parents, parents, check_invocation, check_parent, check_ancestry, ancestry_fuel, check_frame,
  check_sample, check_sample_in, check_quality,
}
use slice.Core.Validate.Ancestry.{
  IsRooted, ancestry_repeats-IsRooted, ancestry_repeats-eq-false, ancestry_fuel_suffices,
}
use slice.Core.Validate.Spec.{
  function_ids, thread_ids, invocation_ids, stack_ids, IsSoundInvocation, IsSoundFrame,
  IsSoundSample, IsSoundQuality,
}

-- `s` is the set of the elements of `ids`.
abbrev pub IsSetOf : List ℕ → List ℕ → Type 0
IsSetOf s ids = (x : ℕ) → contains x s ≡ contains x ids

IsSetOf-Mem : (s ids : List ℕ) (x : ℕ) → IsSetOf s ids → contains x s ≡ true → Mem x ids
IsSetOf-Mem s ids x same h = (contains_iff x ids).0 (sym (same x) ∙ h)

Mem-IsSetOf : (s ids : List ℕ) (x : ℕ) → IsSetOf s ids → Mem x ids → contains x s ≡ true
Mem-IsSetOf s ids x same m = same x ∙ (contains_iff x ids).1 m

check_ancestry-IsRooted : (ps : Parents) (id : ℕ) → check_ancestry ps id ≡ ok tt → IsRooted ps id
unfolding check_ancestry
check_ancestry-IsRooted ps id h =
    let (b, e) = ancestry_fuel_suffices ps id in
    ancestry_repeats-IsRooted (ancestry_fuel ps) ps [] id (ground (arith, e))

IsRooted-check_ancestry : (ps : Parents) (id : ℕ) → IsRooted ps id → check_ancestry ps id ≡ ok tt
unfolding check_ancestry
IsRooted-check_ancestry ps id r = rw (ancestry_repeats-eq-false ps id r, check_ancestry) refl

check_parent_sound :
    (s ids : List ℕ) (parent : Option ℕ)
    → IsSetOf s ids
    → check_parent s parent ≡ ok tt
    → (q : ℕ) → parent ≡ some q
    → Mem q ids
unfolding check_parent
check_parent_sound s ids none same h q e = cc
check_parent_sound s ids (some r) same h q e = IsSetOf-Mem s ids q same (ground arith)

check_parent_complete :
    (s ids : List ℕ) (parent : Option ℕ)
    → IsSetOf s ids
    → ((q : ℕ) → parent ≡ some q → Mem q ids)
    → check_parent s parent ≡ ok tt
unfolding check_parent
check_parent_complete s ids none same k = refl
check_parent_complete s ids (some q) same k = rw (Mem-IsSetOf s ids q same (k q refl))

module _ (p : Profile) (fs ts is : List ℕ) (f : IsSetOf fs (function_ids p))
    (t : IsSetOf ts (thread_ids p)) (n : IsSetOf is (invocation_ids p)) where
  pub check_invocation_sound :
      (i : Invocation)
      → check_invocation fs ts is (parents p.invocations) i ≡ ok tt
      → IsSoundInvocation p i
  unfolding check_invocation
  check_invocation_sound i h0 =
      let (e1, h1) = >>-eq-ok _ _ h0 in
      let (e2, h2) = >>-eq-ok _ _ h1 in
      let (e3, h3) = >>-eq-ok _ _ h2 in
      let (e4, h4) = >>-eq-ok _ _ h3 in
      record {
        known_function = IsSetOf-Mem fs (function_ids p) _ f (guard→true _ _ e1);
        known_thread = IsSetOf-Mem ts (thread_ids p) _ t (guard→true _ _ e2);
        ordered = ground arith;
        known_parent = check_parent_sound is (invocation_ids p) i.parent_id n e4;
        rooted = check_ancestry-IsRooted (parents p.invocations) i.id h4;
      }

  pub check_invocation_complete :
      (i : Invocation)
      → IsSoundInvocation p i
      → check_invocation fs ts is (parents p.invocations) i ≡ ok tt
  unfolding check_invocation
  check_invocation_complete i s =
      let ordered : not (ltb i.end_ns i.start_ns) ≡ true = ground (arith, s.ordered) in
      rw (
        Mem-IsSetOf fs (function_ids p) _ f s.known_function,
        Mem-IsSetOf ts (thread_ids p) _ t s.known_thread,
        ordered,
        check_parent_complete is (invocation_ids p) i.parent_id n s.known_parent,
        IsRooted-check_ancestry (parents p.invocations) i.id s.rooted,
      )

check_frame-Mem :
    (fs ids : List ℕ) (o : Option ℕ)
    → IsSetOf fs ids
    → check_frame fs o ≡ ok tt
    → (id : ℕ) → o ≡ some id
    → Mem id ids
unfolding check_frame
check_frame-Mem fs ids none same h id e = cc
check_frame-Mem fs ids (some x) same h id e = IsSetOf-Mem fs ids id same (ground arith)

Mem-check_frame :
    (fs ids : List ℕ) (o : Option ℕ)
    → IsSetOf fs ids
    → ((id : ℕ) → o ≡ some id → Mem id ids)
    → check_frame fs o ≡ ok tt
unfolding check_frame
Mem-check_frame fs ids none same k = refl
Mem-check_frame fs ids (some x) same k = rw (Mem-IsSetOf fs ids x same (k x refl))

module _ (p : Profile) (fs : List ℕ) (same : IsSetOf fs (function_ids p)) where
  pub check_frame_sound : (f : Frame) → check_frame fs f.function_id ≡ ok tt → IsSoundFrame p f
  check_frame_sound f h = check_frame-Mem fs (function_ids p) f.function_id same h

  pub check_frame_complete : (f : Frame) → IsSoundFrame p f → check_frame fs f.function_id ≡ ok tt
  check_frame_complete f s = Mem-check_frame fs (function_ids p) f.function_id same s

-- What `find` returns was in the list and passes the test.
find-Mem :
    (test : Invocation → Bool) (is : List Invocation) (i : Invocation)
    → find test is ≡ some i
    → Mem i is × (test i ≡ true)
find-Mem test [] i h = cc
find-Mem test (j ∷ is) i h = elim (Bool-cases (test j)) [
  | inl hit ↦
      let same : j ≡ i = ground arith in
      (mem-cons.1 (Or.inl (sym same)), subst (λ x. test x ≡ true) same hit)
  | inr miss ↦ let rest = find-Mem test is i (ground arith) in (mem-cons_of_mem j rest.0, rest.1)
]

-- The invocation with an id is the only one.
find-id :
    (is : List Invocation) (i : Invocation)
    → Nodup (map (λ j. j.id) is)
    → Mem i is
    → find (λ j. j.id == i.id) is ≡ some i
find-id [] i n m = absurd (not-mem-nil m)
find-id (j ∷ is) i n m =
    let parts = Nodup-cons.0 n in
    Or.elim (hlevel) (mem-cons.0 m) (λ e. ground arith)
      (λ later.
        let other : j.id ≢ i.id = λ e.
          parts.0
            (subst (λ x. Mem x (map (λ k. k.id) is)) (sym e) (mem-map_of_mem (λ k. k.id) later)) in
        ground (arith, find-id is i parts.1 later))

check_sample_in-TakenIn :
    (s : Sample) (i : Invocation)
    → check_sample_in s i ≡ ok tt
    → (s.tid ≡ i.tid) × (i.start_ns ≤ s.timestamp_ns) × (s.timestamp_ns ≤ i.end_ns)
unfolding check_sample_in
check_sample_in-TakenIn s i h = ground arith

module _ (p : Profile) (is ss : List ℕ) (n : IsSetOf is (invocation_ids p))
    (k : IsSetOf ss (stack_ids p)) where
  pub check_sample_sound :
      (s : Sample) → check_sample is ss p.invocations s ≡ ok tt → IsSoundSample p s
  unfolding check_sample
  check_sample_sound s h =
      let owner = find (λ j. j.id == s.invocation_id) p.invocations in
      elim (Option-cases owner) [
        | inl missing ↦ absurd (ground arith)
        | inr (i, found) ↦
            let (m, same) = find-Mem (λ j. j.id == s.invocation_id) p.invocations i found in
            let taken = check_sample_in-TakenIn s i (ground arith) in
            (
              IsSetOf-Mem ss (stack_ids p) _ k (ground arith),
              (i, m, (ground arith, taken.0, taken.1, taken.2)),
            )
      ]

  pub check_sample_complete :
      Nodup (invocation_ids p)
      → (s : Sample) → IsSoundSample p s
      → check_sample is ss p.invocations s ≡ ok tt
  unfolding check_sample check_sample_in
  check_sample_complete distinct s (known, (i, m, (e, thread, from, to))) =
      let known_id : Mem s.invocation_id (invocation_ids p) =
        subst (λ x. Mem x (invocation_ids p)) e (mem-map_of_mem (λ j. j.id) m) in
      let found : find (λ j. j.id == s.invocation_id) p.invocations ≡ some i =
        subst (λ x. find (λ j. j.id == x) p.invocations ≡ some i) e
          (find-id p.invocations i distinct m) in
      rw
        (
          Mem-IsSetOf is (invocation_ids p) _ n known_id,
          Mem-IsSetOf ss (stack_ids p) _ k known,
          found,
        )
        (ground arith)

module _ (p : Profile) where
  pub check_quality_sound : check_quality p ≡ ok tt → IsSoundQuality p
  unfolding check_quality
  check_quality_sound h = ground arith

  pub check_quality_complete : IsSoundQuality p → check_quality p ≡ ok tt
  unfolding check_quality
  check_quality_complete q = ground arith
