-- ===== src/Ebpf/Attach/Order.antt =====
-- The order of the set-up of a capture: the target goes on when everything is attached.
use slice.Base.{
  ℕ, ◌≡◌, refl, ap, ◌∙◌, true, false, List, [], ◌∷◌, ◌++◌, any, ok, Bool-cases, Result-cases, inl,
  inr, Option-cases,
}
use slice.Capture.{CaptureRequest}
use slice.Data.Text.{Text}
use slice.Ebpf.Attach.Samplers.{is_resume, attach_samplers-IsQuiet}
use slice.Ebpf.Attach.Ready.{IsReady, attach_all-IsReady}
use slice.Ebpf.Attach.{
  Kernel, raise_memlock_limit, attach_process_uprobe, load_program, attach_probes, set_up,
  resume_target, check_request, attach_all,
}
use slice.Ebpf.Process.{raised_limit}
use slice.Ebpf.Resolver.{Resolver}
use slice.Ebpf.Session.Steps.{IsQuiet, >>=-IsQuiet, perform-IsQuiet, >>=-passes}
use slice.Ebpf.Session.{Effect, resumes, ◌>>◌, require}

module _ (k : Kernel) (request : CaptureRequest) where
  memlock-IsQuiet : any is_resume (raise_memlock_limit k) ≡ false
  unfolding raise_memlock_limit
  memlock-IsQuiet = elim (Option-cases (raised_limit k.memlock)) [
    | inl e ↦ rw (e, raise_memlock_limit) refl
    | inr (limit, e) ↦ elim (Bool-cases k.setrlimit) [
      | inl f ↦ rw (e, f, raise_memlock_limit) refl
      | inr f ↦ rw (e, f, raise_memlock_limit) refl
    ]
  ]

  load_program-IsQuiet : IsQuiet is_resume (load_program k request)
  unfolding load_program
  load_program-IsQuiet = search (>>=-IsQuiet, perform-IsQuiet, memlock-IsQuiet)

  attach_probes-IsQuiet :
      (path : Text) (cpus : List ℕ) → IsQuiet is_resume (attach_probes k request path cpus)
  unfolding attach_probes attach_process_uprobe
  attach_probes-IsQuiet path cpus = search (>>=-IsQuiet, perform-IsQuiet, attach_samplers-IsQuiet)

  check_request-IsQuiet : IsQuiet is_resume (check_request k request)
  unfolding check_request
  check_request-IsQuiet = search (>>=-IsQuiet)

  attach_all-IsQuiet : IsQuiet is_resume (attach_all k request)
  unfolding attach_all
  attach_all-IsQuiet =
      search
        (
          >>=-IsQuiet, perform-IsQuiet, check_request-IsQuiet, load_program-IsQuiet,
          attach_probes-IsQuiet,
        )
        depth 20

  resume_target_lem :
      (resolver : Resolver)
      → let m = resume_target k request >> require (ok resolver) in
        any is_resume m.0 ≡ true
        → (request.resume_after_attach ≡ true) × (m.0 ≡ resumes request.target.pid ∷ [])
  unfolding resume_target
  resume_target_lem resolver h = elim (Bool-cases request.resume_after_attach) [
    | inl asked ↦ elim (Result-cases k.continued) [
      | inl (u, sent) ↦ (asked, rw (asked, sent, resume_target) refl)
      | inr (os_error, failed) ↦ let h' = rw (asked, failed, resume_target) at h in cc (h')
    ]
    | inr unasked ↦ let h' = rw (unasked, resume_target) at h in cc (h')
  ]

  -- If the effects of the set-up include that the target is resumed, then this is the last of them,
  -- the request asked for it, and everything that a capture needs stands before it.
  pub set_up_resumes_last :
      any is_resume (set_up k request).0 ≡ true
      → (before : List Effect) × ((set_up k request).0 ≡ before ++ resumes request.target.pid ∷ [])
        × (any is_resume before ≡ false)
        × (request.resume_after_attach ≡ true)
        × IsReady k request before
  unfolding set_up
  set_up_resumes_last h =
      let (resolver, attached, h1, e1) =
        >>=-passes is_resume (attach_all k request) _ attach_all-IsQuiet h in
      let (asked, last) = resume_target_lem resolver h1 in
      (
        (attach_all k request).0,
        e1 ∙ ap (λ es. (attach_all k request).0 ++ es) last,
        attach_all-IsQuiet,
        asked,
        attach_all-IsReady k request resolver attached,
      )
