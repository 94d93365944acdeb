-- ===== src/Ebpf/Attach/Descriptors.antt =====
-- The descriptors of the sampling events, over the effects of the set-up of a capture.
use slice.Base.{
  ℕ, ◌≡◌, refl, ◌∙◌, Option, none, some, List, [], ◌∷◌, ◌++◌, ◌==◌, Result, ok, err, map_err,
  Result-cases, Option-cases, Bool-cases, inl, inr, if◌then◌else◌, arith,
}
use slice.Capture.{CaptureRequest}
use slice.Data.Text.{Text}
use slice.Ebpf.Attach.{
  Kernel, raise_memlock_limit, open_sampling_event, attach_sampler, attach_samplers,
  attach_process_uprobe, load_program, attach_probes, resume_target, check_request, attach_all,
  set_up,
}
use slice.Ebpf.Process.{raised_limit}
use slice.Ebpf.Session.{
  Effect, raises_memlock, loads_program, writes, attaches_uprobe, attaches_tracepoint, opens_event,
  attaches_sampler, closes, builds_ring, resumes, Session, ◌>>=◌, perform, CaptureFailure, resuming,
}

-- The descriptor that was opened and is neither closed nor handed to a sampler, after one more
-- effect: `none` where a second one is opened, or another one closed or handed over.
abbrev pub hold : Option ℕ → Effect → Option (Option ℕ)
hold none (opens_event attr cpu fd) = some (some fd)
hold (some fd) (opens_event attr cpu next) = none
hold none (attaches_sampler fd) = none
hold (some fd) (attaches_sampler same) = if same == fd then some none else none
hold none (closes fd) = none
hold (some fd) (closes same) = if same == fd then some none else none
hold held (raises_memlock limit) = some held
hold held loads_program = some held
hold held (writes to value) = some held
hold held (attaches_uprobe retprobe path offset pid) = some held
hold held attaches_tracepoint = some held
hold held builds_ring = some held
hold held (resumes pid) = some held

abbrev pub hold_all : Option ℕ → List Effect → Option (Option ℕ)
hold_all held [] = some held
hold_all held (e ∷ es) = elim (hold held e) [ none ↦ none | some next ↦ hold_all next es ]

hold_all-append :
    (held : Option ℕ) (xs ys : List Effect)
    → hold_all held xs ≡ some none
    → hold_all held (xs ++ ys) ≡ hold_all none ys
hold_all-append held [] ys h = cc
hold_all-append held (x ∷ xs) ys h = elim (Option-cases (hold held x)) [
  | inl fault ↦ let h' = rw (fault, hold_all) at h in cc (h')
  | inr (next, e) ↦ rw (e, hold_all) (hold_all-append next xs ys (rw (e, hold_all) at h))
]

-- Every descriptor that the steps open is handed on or closed before the next effect.
abbrev pub IsSettled {ℓ} : {A : Type ℓ} → Session A → Type 0
IsSettled m = hold_all none m.0 ≡ some none

>>=-hold_all {ℓ κ} :
    {A : Type ℓ} {B : Type κ} (held : Option ℕ) (m : Session A) (next : A → Session B)
    → hold_all held m.0 ≡ some none
    → ((a : A) → IsSettled (next a))
    → hold_all held (m >>= next).0 ≡ some none
>>=-hold_all held (done, err e) next h k = h
>>=-hold_all held (done, ok a) next h k = hold_all-append held done (next a).0 h ∙ k a

>>=-IsSettled {ℓ κ} :
    {A : Type ℓ} {B : Type κ} (m : Session A) (next : A → Session B)
    → IsSettled m
    → ((a : A) → IsSettled (next a))
    → IsSettled (m >>= next)
>>=-IsSettled m next = >>=-hold_all none m next

perform-IsSettled :
    (effect : Effect) (answer : Result CaptureFailure (Unit {0}))
    → hold_all none (effect ∷ []) ≡ some none
    → IsSettled (perform effect answer)
perform-IsSettled effect (err e) h = refl
perform-IsSettled effect (ok u) h = h

module _ (k : Kernel) where
  -- The attempt to attach a sampler to the descriptor that was just opened.
  attach_sampler-hold_all :
      (cpu fd : ℕ) → hold_all (some fd) (attach_sampler k cpu fd).0 ≡ some none
  unfolding attach_sampler
  attach_sampler-hold_all cpu fd = elim (Result-cases (k.sampler_attached fd)) [
    | inl (u, e) ↦ rw (e, attach_sampler) (ground arith)
    | inr (message, e) ↦ rw (e, attach_sampler) (ground arith)
  ]

  attach_samplers-IsSettled : (cpus : List ℕ) → IsSettled (attach_samplers k cpus)
  unfolding attach_samplers open_sampling_event
  attach_samplers-IsSettled [] = refl
  attach_samplers-IsSettled (cpu ∷ cpus) = elim (Result-cases (k.perf_event_open cpu)) [
    | inl (fd, e) ↦
        rw (e, attach_samplers, open_sampling_event)
          (>>=-hold_all (some fd) (attach_sampler k cpu fd) (λ u. attach_samplers k cpus)
            (attach_sampler-hold_all cpu fd) (λ u. attach_samplers-IsSettled cpus))
    | inr (os_error, e) ↦ rw (e, attach_samplers, open_sampling_event) refl
  ]

module _ (k : Kernel) (request : CaptureRequest) where
  memlock-IsSettled : hold_all none (raise_memlock_limit k) ≡ some none
  unfolding raise_memlock_limit
  memlock-IsSettled = elim (Option-cases (raised_limit k.memlock)) [
    | inl e ↦ rw (e, raise_memlock_limit) refl
    | inr (limit, e) ↦ elim (Bool-cases k.setrlimit) [
      | inl f ↦ rw (e, f, raise_memlock_limit) refl
      | inr f ↦ rw (e, f, raise_memlock_limit) refl
    ]
  ]

  load_program-IsSettled : IsSettled (load_program k request)
  unfolding load_program
  load_program-IsSettled = search (>>=-IsSettled, perform-IsSettled, memlock-IsSettled) depth 20

  attach_probes-IsSettled :
      (path : Text) (cpus : List ℕ) → IsSettled (attach_probes k request path cpus)
  unfolding attach_probes attach_process_uprobe
  attach_probes-IsSettled path cpus =
      search (>>=-IsSettled, perform-IsSettled, attach_samplers-IsSettled) depth 20

  check_request-IsSettled : IsSettled (check_request k request)
  unfolding check_request
  check_request-IsSettled = search (>>=-IsSettled)

  attach_all-IsSettled : IsSettled (attach_all k request)
  unfolding attach_all
  attach_all-IsSettled =
      search
        (
          >>=-IsSettled, perform-IsSettled, check_request-IsSettled, load_program-IsSettled,
          attach_probes-IsSettled,
        )
        depth 20

  resume_target-IsSettled : IsSettled (resume_target k request)
  unfolding resume_target
  resume_target-IsSettled = elim (Bool-cases request.resume_after_attach) [
    | inl asked ↦
        rw (asked, resume_target)
          (perform-IsSettled (resumes request.target.pid) (map_err resuming k.continued) refl)
    | inr unasked ↦ rw (unasked, resume_target) refl
  ]

  -- However the calls of the set-up end, each descriptor that it opens is handed to a sampler or
  -- closed before anything else is done.
  pub set_up-IsSettled : IsSettled (set_up k request)
  unfolding set_up
  set_up-IsSettled = search (>>=-IsSettled, attach_all-IsSettled, resume_target-IsSettled) depth 20
