-- ===== src/Ebpf/Capture/Laws.antt =====
-- What a capture promises as a whole.
use mathlib.Core.List.{Perm}
use slice.Base.{
  ℕ, ◌<◌, ◌≡◌, refl, ap, ◌∙◌, sym, true, false, none, some, List, [], ◌∷◌, ◌++◌, All, any, length,
  Result, ok, err, Result-cases, inl, inr,
}
use slice.Capture.{CaptureRequest}
use slice.Collector.{SourceInvocation, ActiveInvocation}
use slice.Core.Profile.{Profile}
use slice.Core.Validate.Spec.{IsWellFormed}
use slice.Data.Words.{u32_max}
use slice.Ebpf.Attach.Descriptors.{hold_all, set_up-IsSettled}
use slice.Ebpf.Attach.Order.{set_up_resumes_last}
use slice.Ebpf.Attach.Ready.{IsReady}
use slice.Ebpf.Attach.Samplers.{is_resume}
use slice.Ebpf.Attach.{Kernel, set_up}
use slice.Ebpf.Capture.Polls.{
  delivered, end_cases, some_ok, collect-receive_all, collect_ends, collect_ok,
}
use slice.Ebpf.Capture.{
  World, last_three, Capture, collect, captured, run_capture, capture_pid, metadata_of, reports,
  empty_report, switch_report,
}
use slice.Ebpf.Replay.Consistent.{IsConsistent}
use slice.Ebpf.Replay.Sound.{replay-IsWellFormed}
use slice.Ebpf.Replay.{replay}
use slice.Ebpf.Resolver.{Resolver}
use slice.Ebpf.Ring.Laws.{read_all, receive_all-events, is_last, is_failed, watch_cut}
use slice.Ebpf.Ring.Over.{IsOver, IsOver-is_last, any-last}
use slice.Ebpf.Ring.{Round, no_store, receive_all}
use slice.Ebpf.Session.{Effect, resumes, polling, CaptureFailure}

module _ (drain : List SourceInvocation → List SourceInvocation)
    (iterate : List ActiveInvocation → List ActiveInvocation) (k : Kernel) (w : World)
    (request : CaptureRequest) where
  abbrev pub run : Capture
  run = capture_pid drain iterate k w request

  pub capture_pid-effects : run.effects ≡ (set_up k request).0
  unfolding capture_pid run_capture
  capture_pid-effects = elim (Result-cases (set_up k request).1) [
    | inr (e, failed) ↦ rw (failed, capture_pid) refl
    | inl (resolver, attached) ↦ elim (end_cases (collect w)) [
      | inl more ↦ rw (attached, more, capture_pid, run_capture) refl
      | inr (inl (message, failed)) ↦ rw (attached, failed, capture_pid, run_capture) refl
      | inr (inr (s, ended)) ↦ rw (attached, ended, capture_pid, run_capture) refl
    ]
  ]

  -- If a capture returns a profile, then the set-up has succeeded, and the profile is the replay of
  -- exactly what was delivered in the rounds of the loop up to its end and in at most three polls
  -- after it.
  pub capture_pid-replay :
      (p : Profile)
      → run.outcome ≡ some (ok p)
      → (resolver : Resolver) × ((set_up k request).1 ≡ ok resolver)
        × (p
            ≡ replay drain iterate
                (captured w request resolver (receive_all (delivered w) no_store)))
  unfolding capture_pid run_capture
  capture_pid-replay p h = elim (Result-cases (set_up k request).1) [
    | inr (e, failed) ↦ let h' = rw (failed, capture_pid) at h in cc (h')
    | inl (resolver, attached) ↦ elim (end_cases (collect w)) [
      | inl more ↦ let h' = rw (attached, more, capture_pid, run_capture) at h in cc (h')
      | inr (inl (message, failed)) ↦
          let h' = rw (attached, failed, capture_pid, run_capture) at h in cc (h')
      | inr (inr (s, ended)) ↦
          let h' = rw (attached, ended, capture_pid, run_capture) at h in
          (
            resolver,
            attached,
            sym (some_ok h')
                ∙ ap (λ t. replay drain iterate (captured w request resolver t))
                    (collect-receive_all w s ended),
          )
    ]
  ]

  capture_pid_outcome :
      any is_last w.rounds ≡ true
      → (result : Result CaptureFailure Profile) × (run.outcome ≡ some result)
  unfolding capture_pid run_capture
  capture_pid_outcome h = elim (Result-cases (set_up k request).1) [
    | inr (e, failed) ↦ (err e, rw (failed, capture_pid) refl)
    | inl (resolver, attached) ↦
        let (result, ended) = collect_ends w h in
        elim (Result-cases result) [
          | inl (s, e) ↦ (
            ok (replay drain iterate (captured w request resolver s)),
            rw (attached, ended, e, capture_pid, run_capture) refl,
          )
          | inr (message, e) ↦
              (err (polling message), rw (attached, ended, e, capture_pid, run_capture) refl)
        ]
  ]

  pub capture_pid_ok :
      (resolver : Resolver)
      → (set_up k request).1 ≡ ok resolver
      → any is_last w.rounds ≡ true
      → any is_failed (w.rounds ++ last_three w) ≡ false
      → run.outcome
        ≡ some (
            ok (
              replay drain iterate
                (captured w request resolver (receive_all (delivered w) no_store))))
  unfolding capture_pid run_capture
  capture_pid_ok resolver attached ends no_failure =
      rw (attached, collect_ok w ends no_failure, capture_pid, run_capture) refl

  -- If the set-up succeeds, the loop ends, no poll fails, the records of the right size that are
  -- delivered are consistent and fewer than 2^32 - 1, and the hash maps give each of their entries
  -- once in whatever order, then the capture returns a profile, and it is well formed.
  pub capture_pid-IsWellFormed :
      ((is : List SourceInvocation) → Perm (drain is) is)
      → ((as' : List ActiveInvocation) → Perm (iterate as') as')
      → (resolver : Resolver) → (set_up k request).1 ≡ ok resolver
      → any is_last w.rounds ≡ true
      → any is_failed (w.rounds ++ last_three w) ≡ false
      → (tid_of border : ℕ → ℕ) → All (IsConsistent tid_of border) (read_all (delivered w))
      → length (read_all (delivered w)) < u32_max
      → (p : Profile) × (run.outcome ≡ some (ok p)) × IsWellFormed p
  unfolding captured
  capture_pid-IsWellFormed drain-Perm iterate-Perm resolver attached ends no_failure tid_of border
        consistent few =
      let kept_store = receive_all (delivered w) no_store in
      let kept = receive_all-events (delivered w) no_store in
      let c = captured w request resolver kept_store in
      (
        replay drain iterate c,
        capture_pid_ok resolver attached ends no_failure,
        replay-IsWellFormed drain drain-Perm iterate iterate-Perm c tid_of border
            (rw kept consistent) (rw kept few),
      )

  -- If a capture has resumed its target, then the request asked for it, the target was resumed once
  -- and after everything else, and by then both probes, the tracepoint and a sampler on every CPU
  -- were attached and both maps were written.
  pub capture_pid_resumes_last :
      any is_resume run.effects ≡ true
      → (before : List Effect) × (run.effects ≡ before ++ resumes request.target.pid ∷ [])
        × (any is_resume before ≡ false)
        × (request.resume_after_attach ≡ true)
        × IsReady k request before
  capture_pid_resumes_last = rw capture_pid-effects (set_up_resumes_last k request)

  -- However a capture ends, each descriptor that it has opened was handed to a sampler or closed
  -- before anything else was done.
  pub capture_pid-IsSettled : hold_all none run.effects ≡ some none
  capture_pid-IsSettled = rw capture_pid-effects (set_up-IsSettled k request)

module _ (drain : List SourceInvocation → List SourceInvocation)
    (iterate : List ActiveInvocation → List ActiveInvocation) (k : Kernel) (w : World)
    (request : CaptureRequest) (before : List Round) (r : Round) where
  abbrev run_with : List Round → Capture
  run_with after = run drain iterate k (record w { rounds = before ++ r ∷ after }) request

  outcome_cut :
      (after : List Round) → is_last r ≡ true → (run_with after).outcome ≡ (run_with []).outcome
  unfolding capture_pid run_capture collect captured metadata_of reports empty_report switch_report
  outcome_cut after last =
      let same = watch_cut before after r no_store last in
      elim (Result-cases (set_up k request).1) [
        | inr (e, failed) ↦ rw (failed, capture_pid) refl
        | inl (resolver, attached) ↦ rw (attached, capture_pid, run_capture, collect, same) refl
      ]

  -- If in some round a stop is requested, or the target has no status, or its status shows a zombie,
  -- then the capture ends there at the latest: it has an outcome, an error or a profile, which is the
  -- same whatever would come after that round.
  pub capture_pid_ends :
      IsOver r
      → (result : Result CaptureFailure Profile) × ((after : List Round)
          → (capture_pid drain iterate k
              (record w { rounds = before ++ r ∷ after })
              request).outcome
            ≡ some result)
  capture_pid_ends over =
      let last = IsOver-is_last r over in
      let (result, ended) =
        capture_pid_outcome drain iterate k (record w { rounds = before ++ r ∷ [] }) request
          (any-last before [] r last) in
      (result, λ after. outcome_cut after last ∙ ended)
