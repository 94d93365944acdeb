-- ===== src/Ebpf/Session.antt =====
-- crates/slice-ebpf/src/lib.rs: what `capture_pid` does to the host up to the end of its set-up, as a
-- sequence of effects that ends at the first error.
pub mod Steps
use slice.Base.{ℕ, Bool, List, [], ◌∷◌, ◌++◌, Result, ok, err}
use slice.Data.Text.{Text}
use slice.Ebpf.Host.Cpus.{CpuError}
use slice.Ebpf.Process.{Limit}

-- `PerfEventAttr`.
pub record PerfEventAttr : Type 0 where
  pub type_ : ℕ
  pub size : ℕ
  pub config : ℕ
  pub sample_period : ℕ
  pub sample_type : ℕ
  pub read_format : ℕ
  pub flags : ℕ
  pub wakeup : ℕ
  pub bp_type : ℕ
  pub config1 : ℕ
  pub config2 : ℕ
  pub branch_sample_type : ℕ
  pub sample_regs_user : ℕ
  pub sample_stack_user : ℕ
  pub clockid : ℕ
  pub sample_regs_intr : ℕ
  pub aux_watermark : ℕ
  pub sample_max_stack : ℕ
  pub reserved_2 : ℕ

-- The two BPF maps that are written.
pub data BpfMap : Type 0 where
  config next_invocation_id : BpfMap

-- Each effect that took place. A file descriptor goes over to the link when its sampler is attached.
pub data Effect : Type 0 where
  raises_memlock : Limit → Effect
  loads_program : Effect
  writes : BpfMap → (value : List ℕ) → Effect
  attaches_uprobe : (retprobe : Bool) (module_path : Text) (offset pid : ℕ) → Effect
  attaches_tracepoint : Effect
  opens_event : PerfEventAttr → (cpu fd : ℕ) → Effect
  attaches_sampler : (fd : ℕ) → Effect
  closes : (fd : ℕ) → Effect
  builds_ring : Effect
  resumes : (pid : ℕ) → Effect

-- The errors of `capture_pid`, by their context.
pub data CaptureFailure : Type 0 where
  pid_zero missing_module : CaptureFailure
  no_resolver opening loading : Text → CaptureFailure
  configuring initializing_ids : Text → CaptureFailure
  no_cpu_ids : CpuError → CaptureFailure
  canonicalizing : Text → CaptureFailure
  attaching_uprobe : (retprobe : Bool) → Text → CaptureFailure
  attaching_tracepoint : Text → CaptureFailure
  opening_event attaching_sampler : (cpu : ℕ) → Text → CaptureFailure
  registering_ring building_ring resuming polling : Text → CaptureFailure

abbrev pub Session {ℓ} : Type ℓ → Type ℓ
Session A = List Effect × Result CaptureFailure A

-- `let value = m?; next(value)`.
abbrev pub ◌>>=◌ {ℓ κ} : {A : Type ℓ} {B : Type κ} → Session A → (A → Session B) → Session B
(done, err e) >>= next = (done, err e)
(done, ok a) >>= next = let rest = next a in (done ++ rest.0, rest.1)

abbrev pub ◌>>◌ {ℓ} : {B : Type ℓ} → Session (Unit {0}) → Session B → Session B
m >> next = m >>= λ u. next

infixl 5 ◌>>=◌ ◌>>◌
-- A step without an effect that is seen.
abbrev pub require {ℓ} : {A : Type ℓ} → Result CaptureFailure A → Session A
require r = ([], r)

-- A call that has its effect if it succeeds.
abbrev pub perform : Effect → Result CaptureFailure (Unit {0}) → Session (Unit {0})
perform effect (err e) = ([], err e)
perform effect (ok u) = (effect ∷ [], ok tt)

-- An effect whatever comes.
abbrev pub note : List Effect → Session (Unit {0})
note effects = (effects, ok tt)
