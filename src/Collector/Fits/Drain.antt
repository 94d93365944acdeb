-- ===== src/Collector/Fits/Drain.antt =====
-- What `finish` does before it emits: the violations, and the drained map in the order of the ids.
use mathlib.Core.List.{Perm, foldr}
use mathlib.Core.List.Perm
use native.Mathlib.Bridge.{le_prop}
use slice.Base.{
  All-prop, All-Perm, ℕ, ◌+◌, ◌≡◌, refl, sym, subst, ap, ◌∙◌, false, List, [], ◌∷◌, map, All, Nodup,
  length, Bool-cases, inl, inr, arith,
}
use slice.Collector.{SourceInvocation, PendingSample, with_quality, count_async_violation}
use slice.Collector.Finish.{invalidate, invalidate_all, is_hit, id_leb}
use slice.Collector.Fits.{Plan, FrameFits, SourceFits, SampleFits, pending}
use slice.Core.Profile.{Profile, Frame}
use slice.Data.Maps.{keys, values}
use slice.Data.Sort.{sort, sort-perm}

-- The violations leave alone what does not depend on their counter.
invalidate-holds {ℓ} :
    (P : Profile → Type ℓ)
    → ((p : Profile) → P p → P (with_quality count_async_violation p))
    → (v : ℕ × ℕ) (m : List (ℕ × SourceInvocation)) (p : Profile) → P p
    → P (invalidate v (m, p)).1
unfolding invalidate
invalidate-holds P keep v [] p h = h
invalidate-holds P keep v ((k, i) ∷ m) p h = elim (Bool-cases (is_hit v i)) [
  | inl e ↦ rw e (invalidate-holds P keep v m (with_quality count_async_violation p) (keep p h))
  | inr e ↦ rw e (invalidate-holds P keep v m p h)
]

pub invalidate_all-holds {ℓ} :
    (P : Profile → Type ℓ)
    → ((p : Profile) → P p → P (with_quality count_async_violation p))
    → (vs : List (ℕ × ℕ)) (m : List (ℕ × SourceInvocation)) (p : Profile) → P p
    → P (invalidate_all vs (m, p)).1
unfolding invalidate_all
invalidate_all-holds P keep [] m p h = h
invalidate_all-holds P keep (v ∷ vs) m p h =
    invalidate_all-holds P keep vs (invalidate v (m, p)).0 (invalidate v (m, p)).1
      (invalidate-holds P keep v m p h)

-- A violation takes the validity of an invocation and nothing else.
module _ (plan : Plan) where
  abbrev pub AllFit : List (ℕ × SourceInvocation) → Type 0
  AllFit m = All (λ (k, i). SourceFits plan k i) m

  pub record IsKept (m m' : List (ℕ × SourceInvocation)) : Type 0 where
    pub same_keys : keys m' ≡ keys m
    pub same_pending : pending (values m') ≡ pending (values m)
    pub fit : AllFit m → AllFit m'

  invalid-SourceFits :
      (k : ℕ) (i : SourceInvocation)
      → SourceFits plan k i
      → SourceFits plan k (record i { valid = false })
  invalid-SourceFits k i h = record {
    same_id = h.same_id;
    same_tid = h.same_tid;
    same_function = h.same_function;
    starts = h.starts;
    ends = h.ends;
    samples_fit = h.samples_fit;
  }

  IsKept-more :
      (k : ℕ) (i j : SourceInvocation) (m m' : List (ℕ × SourceInvocation))
      → length j.samples ≡ length i.samples
      → (SourceFits plan k i → SourceFits plan k j)
      → IsKept m m'
      → IsKept ((k, i) ∷ m) ((k, j) ∷ m')
  IsKept-more k i j m m' same keep h = record {
    same_keys = ap (λ ks. k ∷ ks) h.same_keys;
    same_pending = cc (same, h.same_pending);
    fit = λ a. (keep a.0, h.fit a.1);
  }

  invalidate-IsKept :
      (v : ℕ × ℕ) (m : List (ℕ × SourceInvocation)) (p : Profile) → IsKept m (invalidate v (m, p)).0
  unfolding invalidate
  invalidate-IsKept v [] p = record { same_keys = refl; same_pending = refl; fit = λ h. h }
  invalidate-IsKept v ((k, i) ∷ m) p = elim (Bool-cases (is_hit v i)) [
    | inl e ↦ rw e (IsKept-more k i _ m _ refl (invalid-SourceFits k i) (invalidate-IsKept v m _))
    | inr e ↦ rw e (IsKept-more k i i m _ refl (λ h. h) (invalidate-IsKept v m p))
  ]

  pub invalidate_all-IsKept :
      (vs : List (ℕ × ℕ)) (m : List (ℕ × SourceInvocation)) (p : Profile)
      → IsKept m (invalidate_all vs (m, p)).0
  unfolding invalidate_all
  invalidate_all-IsKept [] m p = record { same_keys = refl; same_pending = refl; fit = λ h. h }
  invalidate_all-IsKept (v ∷ vs) m p =
      let first = invalidate-IsKept v m p in
      let rest = invalidate_all-IsKept vs (invalidate v (m, p)).0 (invalidate v (m, p)).1 in
      record {
        same_keys = rest.same_keys ∙ first.same_keys;
        same_pending = rest.same_pending ∙ first.same_pending;
        fit = λ h. rest.fit (first.fit h);
      }

  -- The entries of a map that fits, taken out of it.
  pub values_fit :
      (m : List (ℕ × SourceInvocation)) → AllFit m → All (λ i. SourceFits plan i.id i) (values m)
  values_fit [] h = tt
  values_fit ((k, i) ∷ m) h =
      (subst (λ z. SourceFits plan z i) (sym h.0.same_id) h.0, values_fit m h.1)

  pub values_ids :
      (m : List (ℕ × SourceInvocation)) → AllFit m → map (λ i. i.id) (values m) ≡ keys m
  values_ids [] h = refl
  values_ids ((k, i) ∷ m) h = cc (h.0.same_id, values_ids m h.1)

FrameFits-prop : (plan : Plan) (f : Frame) → IsProp (FrameFits plan f)
FrameFits-prop plan f = hlevel

SampleFits-prop : (plan : Plan) (k : ℕ) (x : PendingSample) → IsProp (SampleFits plan k x)
SampleFits-prop plan k x =
    let a = All-prop (FrameFits plan) (FrameFits-prop plan) x.frames in hlevel (a)

add_samples : SourceInvocation → ℕ → ℕ
add_samples i n = length i.samples + n

pending-foldr : (is : List SourceInvocation) → pending is ≡ foldr add_samples 0 is
unfolding add_samples
pending-foldr [] = refl
pending-foldr (i ∷ is) = ap (λ n. length i.samples + n) (pending-foldr is)

add_samples_comm :
    (i j : SourceInvocation) (n : ℕ)
    → add_samples i (add_samples j n) ≡ add_samples j (add_samples i n)
unfolding add_samples
add_samples_comm i j n = omega arith

pending-Perm : (xs ys : List SourceInvocation) → Perm ys xs → pending ys ≡ pending xs
pending-Perm xs ys perm =
    pending-foldr ys
    ∙ Perm.foldr-eq (hlevel) add_samples add_samples_comm perm 0
    ∙ sym (pending-foldr xs)

-- The drained map in the order of the ids: the same invocations, each with an id of its own.
module _ (plan : Plan) (drain : List SourceInvocation → List SourceInvocation)
    (drain-Perm : (is : List SourceInvocation) → Perm (drain is) is) where
  OwnFits-prop : (i : SourceInvocation) → IsProp (SourceFits plan i.id i)
  OwnFits-prop i =
      let a = All-prop (SampleFits plan i.id) (λ x. SampleFits-prop plan i.id x) i.samples in
      hlevel (a, le_prop)

  drained-Perm : (is : List SourceInvocation) → Perm (sort id_leb (drain is)) is
  drained-Perm is = Perm.trans (sort-perm id_leb (drain is)) (drain-Perm is)

  pub drained-fit :
      (m : List (ℕ × SourceInvocation))
      → AllFit plan m
      → All (λ i. SourceFits plan i.id i) (sort id_leb (drain (values m)))
  drained-fit m h =
      All-Perm (λ i. SourceFits plan i.id i) OwnFits-prop (values m) _ (drained-Perm (values m))
        (values_fit plan m h)

  pub drained-Nodup :
      (m : List (ℕ × SourceInvocation))
      → AllFit plan m
      → Nodup (keys m)
      → Nodup (map (λ i. i.id) (sort id_leb (drain (values m))))
  drained-Nodup m h n =
      Perm.nodup (Perm.map (λ (i : SourceInvocation). i.id) (Perm.symm (drained-Perm (values m))))
        (subst Nodup (sym (values_ids plan m h)) n)

  pub drained-pending :
      (m : List (ℕ × SourceInvocation))
      → pending (sort id_leb (drain (values m))) ≡ pending (values m)
  drained-pending m = pending-Perm (values m) _ (drained-Perm (values m))
