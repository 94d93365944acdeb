-- ===== src/Ebpf/Replay/Sound.antt =====
-- The profile of a capture with consistent records.
use mathlib.Core.List.{
  Perm, Nodup-cons, Nodup-nil, mem-cons, mem-cons_of_mem, mem-append, mem-map_of_mem, not-mem-nil,
}
use mathlib.Core.Logic.Or
use slice.Base.{
  ℕ, ◌<◌, ◌≡◌, refl, Option, none, some, List, [], ◌∷◌, All, All-map, Mem, length, arith, max, ◌*◌,
  Bool-cases, inl, inr, ◌==◌,
}
use slice.Collector.{SourceInvocation, ActiveInvocation, default, with_quality}
use slice.Collector.Counters.{IsCounted}
use slice.Collector.Finish.{finish}
use slice.Collector.Fits.Emission.{IsClosed}
use slice.Collector.Fits.Outcome.{IsRecorded, finish-IsRecorded}
use slice.Collector.Fits.{Plan}
use slice.Core.Profile.{Profile, Invocation}
use slice.Core.Validate.Spec.{IsWellFormed, IsSoundInvocation, function_ids}
use slice.Core.Validate.{parents, parent_of}
use slice.Data.Text.{Text}
use slice.Data.Words.{u32_max}
use slice.Ebpf.Events.{sort_events}
use slice.Ebpf.Replay.{Captured, replay, replay_events, rebuild_threads, start_profile}
use slice.Ebpf.Replay.Consistent.{IsConsistent, plan, sorted-IsCollecting}
use slice.Ebpf.Replay.Counters.{replay-IsCounted}
use slice.Ebpf.Replay.Threads.{rebuild_threads-Nodup}

-- The elements of a list, each with its membership.
All-known {ℓ κ} :
    {A : Type ℓ} (P : A → Type κ) (all xs : List A)
    → ((x : A) → Mem x xs → Mem x all)
    → All P xs
    → All (λ x. P x × Mem x all) xs
All-known P all [] known a = tt
All-known P all (x ∷ xs) known a = (
  (a.0, known x (mem-cons.1 (Or.inl refl))),
  All-known P all xs (λ y m. known y (mem-cons_of_mem x m)) a.1,
)

no_parent : (o : Option ℕ) (q : ℕ) → o ≡ none → ¬ o ≡ some q
no_parent o q e h = cc

-- The last two steps of `replay`.
abbrev finished : Profile → List (ℕ × Text) → Profile
finished p names =
    let r = rebuild_threads p names in
    with_quality
      (λ q. record q { events_generated = max q.events_generated (length r.invocations * 2) }) r

module _ (plan : Plan) where
  -- No invocation of a capture has a parent.
  parent_of-none :
      (is : List Invocation) (id : ℕ) → All (IsClosed plan) is → parent_of (parents is) id ≡ none
  parent_of-none [] id a = refl
  parent_of-none (i ∷ is) id a = elim (Bool-cases (i.id == id)) [
    | inl e ↦ rw e a.0.1
    | inr e ↦ rw e (parent_of-none is id a.1)
  ]

  known_function :
      (p : Profile) (id : ℕ)
      → p.functions ≡ plan.function ∷ []
      → id ≡ plan.function.id
      → Mem id (function_ids p)
  known_function p id one same = rw one (mem-cons.1 (Or.inl same))

  closed-IsSoundInvocation :
      (p : Profile) (names : List (ℕ × Text))
      → IsRecorded plan p
      → (i : Invocation) → IsClosed plan i × Mem i p.invocations
      → IsSoundInvocation (finished p names) i
  unfolding rebuild_threads
  closed-IsSoundInvocation p names h i (closed, known) = record {
    known_function = known_function p i.function_id h.one_function closed.0;
    known_thread =
        ((rebuild_threads-Nodup p names).1 i.tid).1
          (mem-append.1 (Or.inl (mem-map_of_mem (λ (j : Invocation). j.tid) known)));
    ordered = closed.2;
    known_parent = λ q e. absurd (no_parent i.parent_id q closed.1 e);
    rooted = (0, parent_of-none p.invocations i.id h.closed);
  }

  -- With its threads, a recorded profile lacks only the counters of the invocations.
  recorded-IsWellFormed :
      (p : Profile) (names : List (ℕ × Text))
      → IsRecorded plan p
      → IsCounted (finished p names)
      → IsWellFormed (finished p names)
  unfolding rebuild_threads
  recorded-IsWellFormed p names h counted = record {
    version = h.version;
    unique_functions = rw h.one_function (Nodup-cons.1 (not-mem-nil, Nodup-nil));
    unique_threads = (rebuild_threads-Nodup p names).0;
    unique_invocations = h.distinct;
    unique_stacks = h.stacks_distinct;
    sound_invocations =
        All-map _ _ (closed-IsSoundInvocation p names h) p.invocations
          (All-known (IsClosed plan) p.invocations p.invocations (λ x m. m) h.closed);
    sound_frames =
        All-map _ _
          (λ s fs.
            All-map _ _ (λ f fit id same. known_function p id h.one_function (fit id same)) s.frames
              fs)
          p.stacks h.frames_fit;
    sound_samples = h.taken;
    sound_quality = record {
      complete = omega (arith, counted.complete);
      incomplete = omega (arith, counted.incomplete);
      generated = h.generated;
    };
  }

-- If the records of a capture are consistent, fewer than 2^32 - 1, and the hash maps give each of
-- their entries once in whatever order, then the profile of the capture is well formed: all that
-- `validate` asks of a profile holds of it.
pub replay-IsWellFormed :
    (drain : List SourceInvocation → List SourceInvocation)
    → ((is : List SourceInvocation) → Perm (drain is) is)
    → (iterate : List ActiveInvocation → List ActiveInvocation)
    → ((as' : List ActiveInvocation) → Perm (iterate as') as')
    → (c : Captured) (tid_of border : ℕ → ℕ) → All (IsConsistent tid_of border) c.events
    → length c.events < u32_max
    → IsWellFormed (replay drain iterate c)
unfolding replay
replay-IsWellFormed drain drain-Perm iterate iterate-Perm c tid_of border consistent few =
    let s = replay_events c (default, start_profile c) (sort_events c.events) in
    let recorded =
      finish-IsRecorded (plan c tid_of border) drain drain-Perm iterate iterate-Perm
        (length c.events) c.monotonic_ns s few (sorted-IsCollecting c tid_of border consistent) in
    recorded-IsWellFormed (plan c tid_of border) (finish drain iterate s c.monotonic_ns)
      c.thread_names recorded (replay-IsCounted drain iterate c)
