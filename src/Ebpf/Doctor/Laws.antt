-- ===== src/Ebpf/Doctor/Laws.antt =====
-- When the doctor finds a failure.
use slice.Base.{
  ℕ, ◌≤◌, ltb, leb, ◌==◌, ◌≡◌, ◌↔◌, ◌⊎◌, ◌∙◌, Option, none, some, List, [], ◌∷◌, ◌++◌, Option-cases,
  &&-eq-true, refl, sym, ap, Bool, true, false, not, ◌&&◌, ◌||◌, if◌then◌else◌, Bool-cases, inl,
  inr, any, arith,
}
use slice.Capture.{has_failures, is_failure, pass, failure, warning}
use slice.Data.Numerals.{contains_text, split, trim, to_ascii_lowercase}
use slice.Data.Text.{Text, codes, text_eq, text_eq→≡}
use slice.Ebpf.Doctor.{
  Host, linux_doctor_report, kernel_at_least, kernel_release, uprobe_multi_named, tracepoint_access,
  capture_authorized, tracepoint_status, wsl_check, AccessStatus, available, permission_denied,
  missing, Reading, read_ok, denied, failed, access_from, version_of, or_unavailable,
}

-- The tracepoint can be read, or could not be for lack of rights that the user does not have.
abbrev is_traceable : AccessStatus → (authorized : Bool) → Bool
is_traceable available authorized = true
is_traceable permission_denied authorized = not authorized
is_traceable missing authorized = false

-- The conditions of the report.
abbrev is_ready : Host → Bool
is_ready h =
    text_eq h.arch (codes "x86_64")
    && (kernel_at_least (kernel_release h) 6 6
        && (h.btf_is_file
            && (uprobe_multi_named h && is_traceable (tracepoint_access h) (capture_authorized h))))

-- A release from 6.6 on.
abbrev IsRecent : Option (ℕ × ℕ) → Type 0
IsRecent none = ⊥
IsRecent (some (major, minor)) = (7 ≤ major) ⊎ ((major ≡ 6) × (6 ≤ minor))

-- The text of the kernel's types names the kind of attachment, as a whole name.
abbrev IsNaming : Option (List ℕ) → Type 0
IsNaming none = ⊥
IsNaming (some btf) = contains_text (codes "BPF_TRACE_UPROBE_MULTI" ++ 0 ∷ []) btf ≡ true

-- Neither root nor with all three capabilities.
abbrev IsPowerless : (root bpf perfmon ptrace : Bool) → Type 0
IsPowerless false false perfmon ptrace = Unit
IsPowerless false true false ptrace = Unit
IsPowerless false true true false = Unit
IsPowerless _ _ _ _ = ⊥

-- One of the two formats can be read, or one of them is closed to a user who may not capture.
abbrev IsTraceable : (tracing debug : Reading) → (root bpf perfmon ptrace : Bool) → Type 0
IsTraceable read_ok debug root bpf perfmon ptrace = Unit
IsTraceable tracing read_ok root bpf perfmon ptrace = Unit
IsTraceable denied debug root bpf perfmon ptrace = IsPowerless root bpf perfmon ptrace
IsTraceable failed denied root bpf perfmon ptrace = IsPowerless root bpf perfmon ptrace
IsTraceable failed failed root bpf perfmon ptrace = ⊥

-- What a host must have.
pub record IsReady (h : Host) : Type 0 where
  pub arch : h.arch ≡ codes "x86_64"
  pub kernel : IsRecent (version_of (split 46 (trim (or_unavailable h.osrelease))))
  pub btf : h.btf_is_file ≡ true
  pub uprobe_multi : IsNaming h.btf
  pub traceable :
      IsTraceable h.tracing_format h.debug_format h.is_root h.has_bpf h.has_perfmon h.has_ptrace

at_least :
    {major minor : ℕ}
    → (ltb 6 major || ((major == 6) && leb 6 minor)) ≡ true
    → (7 ≤ major) ⊎ ((major ≡ 6) × (6 ≤ minor))
at_least {major} {minor} h = elim (Bool-cases (ltb 6 major)) [
  | inl e ↦ inl (ground (arith, e))
  | inr e ↦ inr (ground (arith, e, h), ground (arith, e, h))
]

recent :
    {major minor : ℕ}
    → (7 ≤ major) ⊎ ((major ≡ 6) × (6 ≤ minor))
    → (ltb 6 major || ((major == 6) && leb 6 minor)) ≡ true
recent (inl h) = ground (arith, h)
recent (inr (a, b)) = ground (arith, a, b)

kernel_at_least-IsRecent :
    (release : Text)
    → (kernel_at_least release 6 6 ≡ true) ↔ IsRecent (version_of (split 46 release))
unfolding kernel_at_least
kernel_at_least-IsRecent release = elim (Option-cases (version_of (split 46 release))) [
  | inl e ↦ rw (e, kernel_at_least) (λ h. cc, λ h. absurd h)
  | inr ((major, minor), e) ↦ rw (e, kernel_at_least) (λ h. at_least h, λ h. recent h)
]

uprobe_multi_named-IsNaming : (h : Host) → (uprobe_multi_named h ≡ true) ↔ IsNaming h.btf
unfolding uprobe_multi_named
uprobe_multi_named-IsNaming h = elim (Option-cases h.btf) [
  | inl e ↦ rw (e, uprobe_multi_named) (λ k. cc, λ k. absurd k)
  | inr (btf, e) ↦ rw (e, uprobe_multi_named) (λ k. k, λ k. k)
]

powerless :
    (root bpf perfmon ptrace : Bool)
    → (not (root || (bpf && (perfmon && ptrace))) ≡ true) ↔ IsPowerless root bpf perfmon ptrace
powerless true bpf perfmon ptrace = (λ k. cc, λ k. absurd k)
powerless false false perfmon ptrace = (λ k. tt, λ k. refl)
powerless false true false ptrace = (λ k. tt, λ k. refl)
powerless false true true false = (λ k. tt, λ k. refl)
powerless false true true true = (λ k. cc, λ k. absurd k)

is_traceable-IsTraceable :
    (tracing debug : Reading) (root bpf perfmon ptrace : Bool)
    → (is_traceable
          (access_from false (tracing ∷ debug ∷ []))
          (root || (bpf && (perfmon && ptrace)))
        ≡ true)
      ↔ IsTraceable tracing debug root bpf perfmon ptrace
is_traceable-IsTraceable read_ok debug root bpf perfmon ptrace = (λ k. tt, λ k. refl)
is_traceable-IsTraceable denied read_ok root bpf perfmon ptrace = (λ k. tt, λ k. refl)
is_traceable-IsTraceable failed read_ok root bpf perfmon ptrace = (λ k. tt, λ k. refl)
is_traceable-IsTraceable denied denied root bpf perfmon ptrace = powerless root bpf perfmon ptrace
is_traceable-IsTraceable denied failed root bpf perfmon ptrace = powerless root bpf perfmon ptrace
is_traceable-IsTraceable failed denied root bpf perfmon ptrace = powerless root bpf perfmon ptrace
is_traceable-IsTraceable failed failed root bpf perfmon ptrace = (λ k. cc, λ k. absurd k)

required_fails : (met : Bool) → is_failure (if met then pass else failure) ≡ not met
required_fails true = refl
required_fails false = refl

authority_never_fails : (b : Bool) → is_failure (if b then pass else warning) ≡ false
authority_never_fails true = refl
authority_never_fails false = refl

tracepoint_fails :
    (a : AccessStatus) (b : Bool) → is_failure (tracepoint_status a b) ≡ not (is_traceable a b)
tracepoint_fails available b = refl
tracepoint_fails permission_denied true = refl
tracepoint_fails permission_denied false = refl
tracepoint_fails missing b = refl

wsl_never_fails :
    (release : Text) → any (λ check. is_failure check.status) (wsl_check release) ≡ false
wsl_never_fails release =
    elim (Bool-cases (contains_text (codes "microsoft") (to_ascii_lowercase release))) [
      | inl e ↦ rw e refl
      | inr e ↦ rw e refl
    ]

or_nots :
    (a b c d e : Bool)
    → (not a || (not b || (not c || (not d || (not e || false)))))
      ≡ not (a && (b && (c && (d && e))))
or_nots a b c d e = ground arith

unnegated : (b : Bool) → not b ≡ false → b ≡ true
unnegated true h = refl
unnegated false h = cc

all_true :
    {a b c d e : Bool}
    → a ≡ true
    → b ≡ true
    → c ≡ true
    → d ≡ true
    → e ≡ true
    → (a && (b && (c && (d && e)))) ≡ true
all_true ha hb hc hd he = rw (ha, hb, hc, hd, he) refl

has_failures-is_ready : (h : Host) → has_failures (linux_doctor_report h) ≡ not (is_ready h)
unfolding has_failures linux_doctor_report
has_failures-is_ready h =
    rw
      (
        required_fails (text_eq h.arch (codes "x86_64")),
        required_fails (kernel_at_least (kernel_release h) 6 6),
        required_fails h.btf_is_file,
        required_fails (uprobe_multi_named h),
        tracepoint_fails (tracepoint_access h) (capture_authorized h),
        authority_never_fails (capture_authorized h),
        wsl_never_fails (kernel_release h),
      )
      (or_nots (text_eq h.arch (codes "x86_64")) (kernel_at_least (kernel_release h) 6 6)
        h.btf_is_file (uprobe_multi_named h)
        (is_traceable (tracepoint_access h) (capture_authorized h)))

-- The report has no failure exactly when the host is an x86_64, its kernel is from 6.6 on, there is a
-- file with BTF, the BTF names uprobe-multi, and the format of the tracepoint is readable at one of two
-- paths or closed to a user who is neither root nor has all three capabilities.
pub has_failures-linux_doctor_report :
    (h : Host) → (has_failures (linux_doctor_report h) ≡ false) ↔ IsReady h
unfolding tracepoint_access kernel_release
has_failures-linux_doctor_report h = (
  λ passed.
      let all : is_ready h ≡ true = unnegated _ (sym (has_failures-is_ready h) ∙ passed) in
      let (a, more) = &&-eq-true _ _ all in
      let (b, more') = &&-eq-true _ _ more in
      let (c, more'') = &&-eq-true _ _ more' in
      let (d, e) = &&-eq-true _ _ more'' in
      record {
        arch = text_eq→≡ _ _ a;
        kernel = (kernel_at_least-IsRecent (kernel_release h)).0 b;
        btf = c;
        uprobe_multi = (uprobe_multi_named-IsNaming h).0 d;
        traceable = (is_traceable-IsTraceable h.tracing_format h.debug_format _ _ _ _).0 e;
      },
  λ ready.
      let a : text_eq h.arch (codes "x86_64") ≡ true = rw ready.arch refl in
      let b = (kernel_at_least-IsRecent (kernel_release h)).1 ready.kernel in
      let c = ready.btf in
      let d = (uprobe_multi_named-IsNaming h).1 ready.uprobe_multi in
      let e =
        (is_traceable-IsTraceable h.tracing_format h.debug_format h.is_root h.has_bpf h.has_perfmon
            h.has_ptrace).1
          ready.traceable in
      has_failures-is_ready h ∙ ap not (all_true a b c d e),
)
