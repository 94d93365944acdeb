-- ===== src/Collector/Fits/Emission.antt =====
-- The profile while `finish` emits source invocations that fit, and one sample more.
use mathlib.Core.List.{
  mem-cons, mem-append, not-mem-nil, Nodup-cons, append_assoc, perm_append_singleton,
}
use mathlib.Core.List.Perm
use mathlib.Core.Logic.Or
use mathlib.Core.Logic.{if_pos, if_neg}
use slice.Base.{
  ℕ, suc, ◌+◌, ◌≤◌, ◌<◌, ◌≡◌, refl, sym, subst, ap, ◌∙◌, Option, none, some, List, [], ◌∷◌, ◌++◌,
  map, All, All-map, All-append, Nodup, Mem, length, length-append, arith, Option-cases, inl, inr,
}
use slice.Collector.{State, Correlator, PendingSample}
use slice.Collector.Fits.{Plan, FrameFits}
use slice.Collector.Stacks.{append_sample, intern, id_of, frames_discrete}
use slice.Core.Profile.{Profile, Invocation, Stack, Sample, Frame}
use slice.Core.Validate.Spec.{invocation_ids, stack_ids, IsSoundSample}
use slice.Data.Words.{u32_max, sat_add_u32}

module _ (plan : Plan) where
  abbrev pub IsClosed : Invocation → Type 0
  IsClosed i = (i.function_id ≡ plan.function.id) × (i.parent_id ≡ none) × (i.start_ns ≤ i.end_ns)

  -- What holds while at most `left` samples and the invocations `rest` are still to come.
  pub record IsEmitting (left : ℕ) (rest : List ℕ) (s : State) : Type 0 where
    pub idle : s.0.active ≡ []
    pub version : s.1.format_version ≡ 1
    pub one_function : s.1.functions ≡ plan.function ∷ []
    pub closed : All IsClosed s.1.invocations
    pub distinct : Nodup (rest ++ invocation_ids s.1)
    pub stacks_below : All (λ st. st.id < s.0.next_stack_id) s.1.stacks
    pub stacks_distinct : Nodup (stack_ids s.1)
    pub frames_fit : All (λ st. All (FrameFits plan) st.frames) s.1.stacks
    pub interned : All (λ (fs, id). Mem id (stack_ids s.1)) s.0.stack_ids
    pub taken : All (IsSoundSample s.1) s.1.samples
    pub room : s.0.next_stack_id + left ≤ u32_max
    pub generated : length s.1.samples + left ≤ s.1.quality.samples_generated

some_injective : {a b : ℕ} → ◌≡◌ {A = Option ℕ} (some a) (some b) → a ≡ b
some_injective h = cc

id_of-Mem :
    (ids : List ℕ) (frames : List Frame) (id : ℕ) (m : List (List Frame × ℕ))
    → All (λ (fs, k). Mem k ids) m
    → id_of frames m ≡ some id
    → Mem id ids
unfolding id_of
id_of-Mem ids frames id [] a e = cc
id_of-Mem ids frames id ((key, k) ∷ m) a e = elim (frames_discrete key frames) [
  | yes same ↦
      let e' = if_pos (frames_discrete key frames) same (some k) (id_of frames m) in
      subst (λ z. Mem z ids) (some_injective (sym e' ∙ e)) a.0
  | no other ↦
      let e' = if_neg (frames_discrete key frames) other (some k) (id_of frames m) in
      id_of-Mem ids frames id m a.1 (sym e' ∙ e)
]

pub map-append_one {ℓ κ} :
    {A : Type ℓ} {B : Type κ} (f : A → B) (xs : List A) (x : A)
    → map f (xs ++ x ∷ []) ≡ map f xs ++ f x ∷ []
map-append_one f [] x = refl
map-append_one f (y ∷ ys) x = ap (λ t. f y ∷ t) (map-append_one f ys x)

-- An id above all others is new.
below-not_Mem :
    (n : ℕ) (ss : List Stack) → All (λ st. st.id < n) ss → ¬ Mem n (map (λ st. st.id) ss)
below-not_Mem n [] a = not-mem-nil
below-not_Mem n (st ∷ ss) a =
    λ m. Or.elim (hlevel) (mem-cons.0 m) (λ e. omega (arith, e, a.0)) (below-not_Mem n ss a.1)

-- What a list of ids keeps and gains when one record is appended.
module _ {A : Type 0} (id_of_record : A → ℕ) (xs : List A) (x : A) where
  pub append_one-old :
      (y : ℕ) → Mem y (map id_of_record xs) → Mem y (map id_of_record (xs ++ x ∷ []))
  append_one-old y m = rw (map-append_one id_of_record xs x) (mem-append.1 (Or.inl m))

  pub append_one-new : Mem (id_of_record x) (map id_of_record (xs ++ x ∷ []))
  append_one-new =
      rw (map-append_one id_of_record xs x) (mem-append.1 (Or.inr (mem-cons.1 (Or.inl refl))))

  pub append_one-Nodup :
      (rest : List ℕ)
      → Nodup (id_of_record x ∷ rest ++ map id_of_record xs)
      → Nodup (rest ++ map id_of_record (xs ++ x ∷ []))
  append_one-Nodup rest n =
      rw
        (
          map-append_one id_of_record xs x,
          sym (append_assoc rest (map id_of_record xs) (id_of_record x ∷ [])),
        )
        (Perm.nodup
          (Perm.symm (perm_append_singleton (id_of_record x) (rest ++ map id_of_record xs))) n)

module _ (plan : Plan) where
  add_sample-IsEmitting :
      (n : ℕ) (rest : List ℕ) (c : Correlator) (p : Profile) (x : Sample)
      → IsSoundSample p x
      → suc (length p.samples + n) ≤ p.quality.samples_generated
      → IsEmitting plan n rest (c, p)
      → IsEmitting plan n rest (c, record p { samples = p.samples ++ x ∷ [] })
  add_sample-IsEmitting n rest c p x sound fits h = record {
    idle = h.idle;
    version = h.version;
    one_function = h.one_function;
    closed = h.closed;
    distinct = h.distinct;
    stacks_below = h.stacks_below;
    stacks_distinct = h.stacks_distinct;
    frames_fit = h.frames_fit;
    interned = h.interned;
    taken = All-append (IsSoundSample p) p.samples (x ∷ []) h.taken (sound, tt);
    room = h.room;
    generated = omega (arith, length-append p.samples (x ∷ []), fits);
  }

  -- Fewer samples may come than there is room for.
  pub fewer-IsEmitting :
      (n m : ℕ) (rest : List ℕ) (s : State)
      → m ≤ n
      → IsEmitting plan n rest s
      → IsEmitting plan m rest s
  fewer-IsEmitting n m rest s le h = record {
    idle = h.idle;
    version = h.version;
    one_function = h.one_function;
    closed = h.closed;
    distinct = h.distinct;
    stacks_below = h.stacks_below;
    stacks_distinct = h.stacks_distinct;
    frames_fit = h.frames_fit;
    interned = h.interned;
    taken = h.taken;
    room = omega (arith, h.room, le);
    generated = omega (arith, h.generated, le);
  }

  -- The state after a new stack is recorded.
  add_stack : Correlator → Profile → List Frame → State
  add_stack c p frames = (
    record c {
      next_stack_id = sat_add_u32 c.next_stack_id 1;
      stack_ids = (frames, c.next_stack_id) ∷ c.stack_ids;
    },
    record p { stacks = p.stacks ++ record { id = c.next_stack_id; frames = frames } ∷ [] },
  )

  add_stack-IsEmitting :
      (n : ℕ) (rest : List ℕ) (c : Correlator) (p : Profile) (frames : List Frame)
      → All (FrameFits plan) frames
      → IsEmitting plan (suc n) rest (c, p)
      → IsEmitting plan n rest (add_stack c p frames)
  unfolding add_stack
  add_stack-IsEmitting n rest c p frames fit h =
      let st : Stack = record { id = c.next_stack_id; frames = frames } in
      let id_of_stack = λ (s : Stack). s.id in
      let new = below-not_Mem c.next_stack_id p.stacks h.stacks_below in
      let grow = append_one-old id_of_stack p.stacks st in
      record {
        idle = h.idle;
        version = h.version;
        one_function = h.one_function;
        closed = h.closed;
        distinct = h.distinct;
        stacks_below =
            All-append _ p.stacks (st ∷ [])
              (All-map _ _ (λ s lt. omega (arith, lt, h.room)) p.stacks h.stacks_below)
              (omega (arith, h.room), tt);
        stacks_distinct =
            append_one-Nodup id_of_stack p.stacks st [] (Nodup-cons.1 (new, h.stacks_distinct));
        frames_fit = All-append _ p.stacks (st ∷ []) h.frames_fit (fit, tt);
        interned = (
          append_one-new id_of_stack p.stacks st,
          All-map _ _ (λ (fs, id) m. grow id m) c.stack_ids h.interned,
        );
        taken = All-map _ _ (λ x (m, i). (grow x.stack_id m, i)) p.samples h.taken;
        room = omega (arith, h.room);
        generated = omega (arith, h.generated);
      }

  -- A sample of an emitted invocation takes one of the places.
  pub append_sample-IsEmitting :
      (n : ℕ) (rest : List ℕ) (s : State) (i : Invocation) (x : PendingSample)
      → Mem i s.1.invocations
      → x.tid ≡ i.tid
      → (i.start_ns ≤ x.timestamp_ns) × (x.timestamp_ns ≤ i.end_ns)
      → All (FrameFits plan) x.frames
      → IsEmitting plan (suc n) rest s
      → IsEmitting plan n rest (append_sample s i.id x)
  unfolding append_sample intern add_stack
  append_sample-IsEmitting n rest (c, p) i x m same within fit h =
      elim (Option-cases (id_of x.frames c.stack_ids)) [
        | inl unknown ↦
            let h' = add_stack-IsEmitting n rest c p x.frames fit h in
            rw (unknown, append_sample, intern)
              (add_sample-IsEmitting n rest _ _ _
                (
                  append_one-new (λ (s : Stack). s.id) p.stacks _,
                  (i, m, (refl, same, within.0, within.1)),
                )
                (omega (arith, h.generated)) h')
        | inr (id, known) ↦
            let h' = fewer-IsEmitting (suc n) n rest (c, p) (omega arith) h in
            let old = id_of-Mem (stack_ids p) x.frames id c.stack_ids h.interned known in
            rw (known, append_sample, intern)
              (add_sample-IsEmitting n rest c p _ (old, (i, m, (refl, same, within.0, within.1)))
                (omega (arith, h.generated)) h')
      ]
