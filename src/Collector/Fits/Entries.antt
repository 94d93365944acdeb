-- ===== src/Collector/Fits/Entries.antt =====
-- One entry of the map of source invocations, as the events change it.
use mathlib.Core.List.{Nodup-cons, Nodup-nil, mem-cons, mem-cons_of_mem, not-mem-nil}
use mathlib.Core.Logic.Or
use slice.Base.{
  ℕ, ◌+◌, ◌≤◌, ◌≡◌, ◌≢◌, refl, sym, subst, Option, none, some, List, [], ◌∷◌, All, All-append,
  Nodup, Mem, length, arith, Bool-cases, inl, inr, ◌==◌, ==_iff,
}
use slice.Collector.{SourceInvocation, PendingSample}
use slice.Collector.Fits.{Plan, SourceFits, SampleFits, MapFits, pending}
use slice.Collector.Source.{enter, leave, pend, known_function}
use slice.Data.Maps.{keys, values, update_or_insert}

module _ (plan : Plan) (key : ℕ) where
  pub enter-SourceFits :
      (f tid t : ℕ) (i : SourceInvocation)
      → f ≡ plan.function.id
      → tid ≡ plan.tid_of key
      → t ≤ plan.border key
      → SourceFits plan key i
      → SourceFits plan key (enter f tid t i)
  unfolding enter
  enter-SourceFits f tid t i a b c h = elim (Bool-cases i.saw_entry) [
    | inl e ↦
        rw (e, enter)
          (record {
            same_id = h.same_id;
            same_tid = h.same_tid;
            same_function = h.same_function;
            starts = h.starts;
            ends = h.ends;
            samples_fit = h.samples_fit;
          })
    | inr e ↦
        rw (e, enter)
          (record {
            same_id = h.same_id;
            same_tid = b;
            same_function = λ g same. ground (arith, a);
            starts = λ s same. ground (arith, c);
            ends = h.ends;
            samples_fit = h.samples_fit;
          })
  ]

  known_function-eq :
      (o : Option ℕ) (f : ℕ)
      → ((g : ℕ) → o ≡ some g → g ≡ plan.function.id)
      → f ≡ plan.function.id
      → known_function o f ≡ plan.function.id
  known_function-eq none f h e = e
  known_function-eq (some g) f h e = h g refl

  pub leave-SourceFits :
      (f tid t : ℕ) (i : SourceInvocation)
      → f ≡ plan.function.id
      → plan.border key ≤ t
      → SourceFits plan key i
      → SourceFits plan key (leave f tid t i)
  unfolding leave
  leave-SourceFits f tid t i a c h = record {
    same_id = h.same_id;
    same_tid = h.same_tid;
    same_function = λ g same.
        let e = known_function-eq i.function_id f h.same_function a in ground (arith, e, same);
    starts = h.starts;
    ends = λ s same. ground (arith, c, same);
    samples_fit = h.samples_fit;
  }

  pub pend-SourceFits :
      (x : PendingSample) (i : SourceInvocation)
      → SampleFits plan key x
      → SourceFits plan key i
      → SourceFits plan key (pend x i)
  pend-SourceFits x i a h = record {
    same_id = h.same_id;
    same_tid = h.same_tid;
    same_function = h.same_function;
    starts = h.starts;
    ends = h.ends;
    samples_fit = All-append _ i.samples (x ∷ []) h.samples_fit (a, tt);
  }

-- The keys after an update: the old ones and the one that is updated.
keys-update {ℓ} :
    {V : Type ℓ} (key x : ℕ) (v : V) (f : V → V) (m : List (ℕ × V))
    → x ≢ key
    → ¬ Mem x (keys m)
    → ¬ Mem x (keys (update_or_insert key v f m))
keys-update key x v f [] ne new = λ t. Or.elim (hlevel) (mem-cons.0 t) ne not-mem-nil
keys-update key x v f ((k, w) ∷ m) ne new = elim (Bool-cases (k == key)) [
  | inl e ↦ rw e new
  | inr e ↦ rw e (λ t.
      Or.elim (hlevel) (mem-cons.0 t) (λ here. new (mem-cons.1 (Or.inl here)))
        (λ later. keys-update key x v f m ne (λ n. new (mem-cons_of_mem k n)) later))
]

pub update-Nodup {ℓ} :
    {V : Type ℓ} (key : ℕ) (v : V) (f : V → V) (m : List (ℕ × V))
    → Nodup (keys m)
    → Nodup (keys (update_or_insert key v f m))
update-Nodup key v f [] h = Nodup-cons.1 (not-mem-nil, Nodup-nil)
update-Nodup key v f ((k, w) ∷ m) h = elim (Bool-cases (k == key)) [
  | inl e ↦ rw e h
  | inr e ↦
      let parts = Nodup-cons.0 h in
      let other : k ≢ key = λ same. ground (arith, e, same) in
      rw e (Nodup-cons.1 (keys-update key k v f m other parts.0, update-Nodup key v f m parts.1))
]

module _ (plan : Plan) (key : ℕ) (v : SourceInvocation) (f : SourceInvocation → SourceInvocation)
    (start : SourceFits plan key (f v))
    (keep : (i : SourceInvocation) → SourceFits plan key i → SourceFits plan key (f i)) where
  update-entries :
      (m : List (ℕ × SourceInvocation))
      → All (λ (k, i). SourceFits plan k i) m
      → All (λ (k, i). SourceFits plan k i) (update_or_insert key v f m)
  update-entries [] h = (start, tt)
  update-entries ((k, i) ∷ m) h = elim (Bool-cases (k == key)) [
    | inl e ↦
        let same = (==_iff k key).0 e in
        rw e (
          subst (λ z. SourceFits plan z (f i)) (sym same)
              (keep i (subst (λ z. SourceFits plan z i) same h.0)),
          h.1,
        )
    | inr e ↦ rw e (h.0, update-entries m h.1)
  ]

  pub update-MapFits :
      (m : List (ℕ × SourceInvocation)) → MapFits plan m → MapFits plan (update_or_insert key v f m)
  update-MapFits m h = record {
    entries = update-entries m h.entries;
    distinct = update-Nodup key v f m h.distinct;
  }

-- An update adds as many pending samples as it adds to one entry.
pub pending-update :
    (key d : ℕ) (v : SourceInvocation) (f : SourceInvocation → SourceInvocation)
    → length (f v).samples ≡ d
    → ((i : SourceInvocation) → length (f i).samples ≡ length i.samples + d)
    → (m : List (ℕ × SourceInvocation))
    → pending (values (update_or_insert key v f m)) ≡ pending (values m) + d
pending-update key d v f a b [] = omega (arith, a)
pending-update key d v f a b ((k, i) ∷ m) = elim (Bool-cases (k == key)) [
  | inl e ↦ rw e (omega (arith, b i))
  | inr e ↦ rw e (omega (arith, pending-update key d v f a b m))
]
