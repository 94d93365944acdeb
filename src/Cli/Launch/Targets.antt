-- ===== src/Cli/Launch/Targets.antt =====
-- What becomes of the target of `slice profile`.
use slice.Base.{
  ℕ, ◌≡◌, refl, Option, none, some, List, [], ◌∷◌, length, select, Result, ok, err, Bool-cases,
  if◌then◌else◌, Option-cases, Result-cases, inl, inr, ◌==◌,
}
use slice.Cli.Launch.{
  launch, ProfileFailure, Outcomes, Action, launches, stops, resumes, kills, waits, profile,
  start_target, prepare_capture, run_capture, keep_profile, conclude, choose_target,
  identity_failed, no_complete_invocations, stop_failed, handler_failed, capture_failed,
  write_failed, wait_failed,
}
use slice.Cli.Summary.{Summary}
use slice.Core.Profile.{Profile}
use slice.Core.Validate.{is_complete}
use slice.Data.Text.{Text}

-- What has become of a launched process after all that was done to it; `unsure` after a stop or a
-- wait that has failed.
pub data Fate : Type 0 where
  not_launched held free unsure killed awaited : Fate

-- A kill that fails changes nothing.
abbrev fate_after : Fate → Action → Fate
fate_after f (launches pid) = free
fate_after f (resumes pid) = free
fate_after f (stops succeeds pid) = if succeeds then held else unsure
fate_after f (kills succeeds pid) = if succeeds then killed else f
fate_after f (waits succeeds pid) = if succeeds then awaited else unsure

abbrev pub fate : Fate → List Action → Fate
fate f [] = f
fate f (a ∷ as') = fate (fate_after f a) as'

-- The fate by what the command returns, and where a kill fails.
abbrev pub expected : Outcomes → Result ProfileFailure Summary → Fate
expected o (ok summary) = awaited
expected o (err wait_failed) = unsure
expected o (err identity_failed) = held
expected o (err no_complete_invocations) = free
expected o (err stop_failed) = if o.killed then killed else unsure
expected o (err handler_failed) = if o.killed then killed else held
expected o (err capture_failed) = if o.killed then killed else (if o.resumed then free else held)
expected o (err write_failed) = if o.killed then killed else free
expected o (err _) = not_launched

module _ (o : Outcomes) (pid : ℕ) where
  fate-conclude :
      (p : Profile) (f : Fate)
      → fate f (conclude o (some pid) p).0 ≡ expected o (conclude o (some pid) p).1
  unfolding conclude
  fate-conclude p f = elim (Bool-cases o.waited) [ inl e ↦ simp e refl | inr e ↦ simp e refl ]

  fate-keep_profile :
      (p : Profile)
      → fate free (keep_profile o (some pid) p).0 ≡ expected o (keep_profile o (some pid) p).1
  unfolding keep_profile
  fate-keep_profile p = elim (Bool-cases (length (select is_complete p.invocations) == 0)) [
    | inl e ↦ simp e refl
    | inr e ↦ elim (Bool-cases o.written) [
      | inl e' ↦ simp (e, e') (fate-conclude p free)
      | inr e' ↦ simp (e, e') refl
    ]
  ]

  fate-run_capture :
      fate held (run_capture o (some pid)).0 ≡ expected o (run_capture o (some pid)).1
  unfolding run_capture
  fate-run_capture = elim (Option-cases o.captured) [
    | inl e ↦ elim (Bool-cases o.resumed) [
      | inl e' ↦ simp (e, e', run_capture) refl
      | inr e' ↦ simp (e, e', run_capture) refl
    ]
    | inr (p, e) ↦ simp (e, run_capture) (fate-keep_profile p)
  ]

  fate-prepare_capture :
      fate held (prepare_capture o (some pid)).0 ≡ expected o (prepare_capture o (some pid)).1
  unfolding prepare_capture
  fate-prepare_capture = elim (Bool-cases o.identified) [
    | inl e ↦ elim (Bool-cases o.handler_installed) [
      | inl e' ↦ simp (e, e') fate-run_capture
      | inr e' ↦ simp (e, e') refl
    ]
    | inr e ↦ simp e refl
  ]

fate-start_target :
    (o : Outcomes) (program : Text)
    → fate not_launched (start_target o (launch program)).0
      ≡ expected o (start_target o (launch program)).1
unfolding start_target
fate-start_target o program = elim (Option-cases o.launched) [
  | inl e ↦ simp (e, start_target) refl
  | inr (pid, e) ↦ elim (Bool-cases o.stopped) [
    | inl e' ↦ simp (e, e', start_target) (fate-prepare_capture o pid)
    | inr e' ↦ simp (e, e', start_target) refl
  ]
]

-- However the calls end, what becomes of a launched target follows from what the command returns. It
-- has been waited for on success, and may still run if waiting failed. Where the stop, the handler, the
-- capture or the output failed, it is killed, or left as it was before if the kill fails: stopped or
-- not after a failed stop, stopped after the handler, running after the output, and after the capture
-- running only if that had resumed it. It is left stopped if its identity could not be resolved, and
-- running if no invocation is complete. On every other error it was never launched.
pub fate-profile :
    (program : Text) (module_path : Option Text) (o : Outcomes)
    → fate not_launched (profile none module_path (some program) o).0
      ≡ expected o (profile none module_path (some program) o).1
unfolding profile choose_target
fate-profile program module_path o = elim (Result-cases o.symbol) [
  | inl (s, e) ↦ simp (e, profile) (fate-start_target o program)
  | inr (e', e) ↦ simp (e, profile) refl
]
