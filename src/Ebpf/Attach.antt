-- ===== src/Ebpf/Attach.antt =====
-- crates/slice-ebpf/src/lib.rs: the first half of `capture_pid`, from the request to the resumed
-- target. The answers of the kernel, of libbpf and of the file system are a parameter.
pub mod Descriptors
pub mod Order
pub mod Ready
pub mod Samplers
use mathlib.Core.Option
use slice.Base.{
  ℕ, ◌/◌, ◌*◌, ◌+◌, Bool, true, false, not, ◌||◌, Option, none, some, List, [], ◌∷◌, ◌++◌, ◌==◌,
  map, if◌then◌else◌, Result, ok, err, guard, map_err,
}
use slice.Capture.{CaptureRequest}
use slice.Data.Text.{Text}
use slice.Ebpf.Events.Wire.{bytes_of}
use slice.Ebpf.Host.Cpus.{available_cpu_ids}
use slice.Ebpf.Process.{Limit, raised_limit}
use slice.Ebpf.Resolver.{Resolver}
use slice.Ebpf.Session.{
  PerfEventAttr, BpfMap, config, next_invocation_id, Effect, raises_memlock, loads_program, writes,
  attaches_uprobe, attaches_tracepoint, opens_event, attaches_sampler, closes, builds_ring, resumes,
  CaptureFailure, pid_zero, missing_module, no_resolver, opening, loading, configuring,
  initializing_ids, no_cpu_ids, canonicalizing, attaching_uprobe, attaching_tracepoint,
  opening_event, attaching_sampler, registering_ring, building_ring, resuming, Session, ◌>>=◌, ◌>>◌,
  require, perform, note,
}

abbrev pub Answer : Type 0
Answer = Result Text (Unit {0})

-- What the host answers to the calls of the set-up.
pub record Kernel : Type 0 where
  pub module_is_file : Bool
  pub resolver : Result Text Resolver
  pub opened : Answer
  pub memlock : Option Limit
  pub setrlimit : Bool
  pub loaded : Answer
  pub updated : BpfMap → Answer
  pub online : Option Text
  pub parallelism : Option ℕ
  pub canonical : Result Text Text
  pub uprobe_attached : (retprobe : Bool) → Answer
  pub tracepoint_attached : Answer
  pub perf_event_open : (cpu : ℕ) → Result Text ℕ
  pub sampler_attached : (fd : ℕ) → Answer
  pub ring_registered : Answer
  pub ring_built : Answer
  pub continued : Answer

abbrev pub sample_frequency_hz : ℕ
sample_frequency_hz = 999

abbrev pub sample_period_ns : ℕ
sample_period_ns = 1_000_000_000 / sample_frequency_hz

-- The value of the map `config`: the function, a zero and the period.
unfoldable pub config_bytes : (function_id : ℕ) → List ℕ
config_bytes function_id = bytes_of 4 function_id ++ bytes_of 4 0 ++ bytes_of 8 sample_period_ns

-- The attributes of a sampling event: the software clock of a CPU, with a period.
abbrev pub sampling_attr : PerfEventAttr
sampling_attr = record {
  type_ = 1;
  size = 112;
  config = 0;
  sample_period = sample_period_ns;
  sample_type = 1;
  read_format = 0;
  flags = 1;
  wakeup = 1;
  bp_type = 0;
  config1 = 0;
  config2 = 0;
  branch_sample_type = 0;
  sample_regs_user = 0;
  sample_stack_user = 0;
  clockid = 0;
  sample_regs_intr = 0;
  aux_watermark = 0;
  sample_max_stack = 0;
  reserved_2 = 0;
}

-- A failure to raise the limit is passed over.
unfoldable pub raise_memlock_limit : Kernel → List Effect
raise_memlock_limit k = elim (raised_limit k.memlock) [
  | none ↦ []
  | some limit ↦ if k.setrlimit then raises_memlock limit ∷ [] else []
]

unfoldable pub open_sampling_event : Kernel → (cpu : ℕ) → Session ℕ
open_sampling_event k cpu = elim (k.perf_event_open cpu) [
  | err os_error ↦ ([], err (opening_event cpu os_error))
  | ok fd ↦ (opens_event sampling_attr cpu fd ∷ [], ok fd)
]

-- The descriptor is closed if no sampler can be attached to it.
unfoldable pub attach_sampler : Kernel → (cpu fd : ℕ) → Session (Unit {0})
attach_sampler k cpu fd = elim (k.sampler_attached fd) [
  | err message ↦ (closes fd ∷ [], err (attaching_sampler cpu message))
  | ok u ↦ (attaches_sampler fd ∷ [], ok tt)
]

-- The loop over the CPUs.
unfoldable pub attach_samplers : Kernel → List ℕ → Session (Unit {0})
attach_samplers k [] = ([], ok tt)
attach_samplers k (cpu ∷ cpus) = do
  fd ← open_sampling_event k cpu
  attach_sampler k cpu fd
  attach_samplers k cpus

unfoldable pub attach_process_uprobe :
    Kernel → (module_path : Text) (offset : ℕ) (retprobe : Bool) (pid : ℕ) → Session (Unit {0})
attach_process_uprobe k module_path offset retprobe pid =
    perform (attaches_uprobe retprobe module_path offset pid)
      (map_err (attaching_uprobe retprobe) (k.uprobe_attached retprobe))

unfoldable pub load_program : Kernel → CaptureRequest → Session (Unit {0})
load_program k request = do
  require (map_err opening k.opened)
  note (raise_memlock_limit k)
  perform loads_program (map_err loading k.loaded)
  perform (writes config (config_bytes request.function.id))
      (map_err configuring (k.updated config))
  perform (writes next_invocation_id (bytes_of 8 1))
      (map_err initializing_ids (k.updated next_invocation_id))

unfoldable pub attach_probes :
    Kernel → CaptureRequest → (path : Text) (cpus : List ℕ) → Session (Unit {0})
attach_probes k request path cpus = do
  attach_process_uprobe k path request.probe_offset false request.target.pid
  attach_process_uprobe k path request.probe_offset true request.target.pid
  perform attaches_tracepoint (map_err attaching_tracepoint k.tracepoint_attached)
  attach_samplers k cpus

unfoldable pub resume_target : Kernel → CaptureRequest → Session (Unit {0})
resume_target k request =
    if request.resume_after_attach
    then perform (resumes request.target.pid) (map_err resuming k.continued)
    else require (ok tt)

unfoldable pub check_request : Kernel → CaptureRequest → Session Resolver
check_request k request = do
  require (guard (not (request.target.pid == 0 || request.target.kernel_tgid == 0)) pid_zero)
  require (guard k.module_is_file missing_module)
  require (map_err no_resolver k.resolver)

-- All that comes before the target is resumed, with the resolver that is loaded.
unfoldable pub attach_all : Kernel → CaptureRequest → Session Resolver
attach_all k request = do
  resolver ← check_request k request
  load_program k request
  cpus ← require (map_err no_cpu_ids (available_cpu_ids k.online k.parallelism))
  path ← require (map_err canonicalizing k.canonical)
  attach_probes k request path cpus
  require (map_err registering_ring k.ring_registered)
  perform builds_ring (map_err building_ring k.ring_built)
  require (ok resolver)

unfoldable pub set_up : Kernel → CaptureRequest → Session Resolver
set_up k request = do
  resolver ← attach_all k request
  resume_target k request
  require (ok resolver)
