-- ===== src/Ebpf/Attach/Samplers.antt =====
-- The loop of a capture that attaches a sampler to every CPU.
use mathlib.Core.List.{mem-cons}
use mathlib.Core.Logic.Or
use slice.Base.{
  ℕ, ◌≡◌, refl, sym, ap, Bool, true, false, List, [], ◌∷◌, Mem, All, All-map, ok, ok-injective,
  Result-cases, inl, inr,
}
use slice.Ebpf.Attach.{Kernel, sampling_attr, open_sampling_event, attach_sampler, attach_samplers}
use slice.Ebpf.Session.Steps.{IsWithin, >>=-returns, IsQuiet, >>=-IsQuiet}
use slice.Ebpf.Session.{Effect, opens_event, attaches_sampler, resumes, ◌>>◌}

abbrev pub is_resume : Effect → Bool
is_resume (resumes pid) = true
is_resume _ = false

-- The sampler of a CPU is attached to a descriptor that was opened for it.
abbrev pub HasSampler : List Effect → ℕ → Type 0
HasSampler done cpu =
    (fd : ℕ) × Mem (opens_event sampling_attr cpu fd) done × Mem (attaches_sampler fd) done

pub HasSampler-more :
    (done more : List Effect)
    → IsWithin done more
    → (cpus : List ℕ) → All (HasSampler done) cpus
    → All (HasSampler more) cpus
HasSampler-more done more within cpus a =
    All-map (HasSampler done) (HasSampler more)
      (λ cpu (fd, opened, attached). (fd, within _ opened, within _ attached)) cpus a

module _ (k : Kernel) where
  open_sampling_event-IsQuiet : (cpu : ℕ) → IsQuiet is_resume (open_sampling_event k cpu)
  unfolding open_sampling_event
  open_sampling_event-IsQuiet cpu = elim (Result-cases (k.perf_event_open cpu)) [
    | inl (fd, e) ↦ rw (e, open_sampling_event) refl
    | inr (os_error, e) ↦ rw (e, open_sampling_event) refl
  ]

  attach_sampler-IsQuiet : (cpu fd : ℕ) → IsQuiet is_resume (attach_sampler k cpu fd)
  unfolding attach_sampler
  attach_sampler-IsQuiet cpu fd = elim (Result-cases (k.sampler_attached fd)) [
    | inl (u, e) ↦ rw (e, attach_sampler) refl
    | inr (message, e) ↦ rw (e, attach_sampler) refl
  ]

  pub attach_samplers-IsQuiet : (cpus : List ℕ) → IsQuiet is_resume (attach_samplers k cpus)
  unfolding attach_samplers
  attach_samplers-IsQuiet [] = refl
  attach_samplers-IsQuiet (cpu ∷ cpus) =
      >>=-IsQuiet is_resume (open_sampling_event k cpu)
        (λ fd. attach_sampler k cpu fd >> attach_samplers k cpus) (open_sampling_event-IsQuiet cpu)
        (λ fd.
          >>=-IsQuiet is_resume (attach_sampler k cpu fd) (λ u. attach_samplers k cpus)
            (attach_sampler-IsQuiet cpu fd) (λ u. attach_samplers-IsQuiet cpus))

  open_sampling_event-Mem :
      (cpu fd : ℕ)
      → (open_sampling_event k cpu).1 ≡ ok fd
      → Mem (opens_event sampling_attr cpu fd) (open_sampling_event k cpu).0
  unfolding open_sampling_event
  open_sampling_event-Mem cpu fd h = elim (Result-cases (k.perf_event_open cpu)) [
    | inl (found, e) ↦
        let same : found ≡ fd = ok-injective (let h' = rw (e, open_sampling_event) at h in h') in
        rw (e, open_sampling_event)
          (mem-cons.1 (Or.inl (ap (λ n. opens_event sampling_attr cpu n) (sym same))))
    | inr (os_error, e) ↦ let h' = rw (e, open_sampling_event) at h in cc (h')
  ]

  attach_sampler-Mem :
      (cpu fd : ℕ) {u : Unit {0}}
      → (attach_sampler k cpu fd).1 ≡ ok u
      → Mem (attaches_sampler fd) (attach_sampler k cpu fd).0
  unfolding attach_sampler
  attach_sampler-Mem cpu fd h = elim (Result-cases (k.sampler_attached fd)) [
    | inl (u, e) ↦ rw (e, attach_sampler) (mem-cons.1 (Or.inl refl))
    | inr (message, e) ↦ let h' = rw (e, attach_sampler) at h in cc (h')
  ]

  pub attach_samplers-HasSampler :
      (cpus : List ℕ) {u : Unit {0}}
      → (attach_samplers k cpus).1 ≡ ok u
      → All (HasSampler (attach_samplers k cpus).0) cpus
  unfolding attach_samplers
  attach_samplers-HasSampler [] h = tt
  attach_samplers-HasSampler (cpu ∷ cpus) h =
      let (fd, opened, h1, first, rest) = >>=-returns (open_sampling_event k cpu) _ h in
      let (u, attached, h2, second, third) = >>=-returns (attach_sampler k cpu fd) _ h1 in
      (
        (
          fd,
          first _ (open_sampling_event-Mem cpu fd opened),
          rest _ (second _ (attach_sampler-Mem cpu fd attached)),
        ),
        HasSampler-more _ _ (λ x m. rest x (third x m)) cpus (attach_samplers-HasSampler cpus h2),
      )
