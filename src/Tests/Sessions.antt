-- ===== src/Tests/Sessions.antt =====
-- A capture of a launched program on two CPUs, with one invocation.
use mathlib.Core.List.Perm
use slice.Base.{
  inr, ℕ, ◌+◌, ◌≡◌, ◌<◌, refl, true, false, Option, none, some, List, [], ◌∷◌, ◌++◌, All, any,
  length, Result, ok, err, arith, if◌then◌else◌, ◌==◌,
}
use slice.Capture.{CaptureRequest}
use slice.Core.Profile.{Profile}
use slice.Core.Validate.Spec.{IsWellFormed}
use slice.Data.Numerals.{split, trim, parse_unsigned, split_once, parse_digits, lines, strip_suffix}
use slice.Data.Text.{Text, codes}
use slice.Data.Words.{u32_max}
use slice.Ebpf.Process.{raised_limit, process_exists}
use slice.Ebpf.Resolver.Load.{words_after}
use slice.Ebpf.Host.{poll_ring}
use slice.Ebpf.Events.{read_event}
use slice.Ebpf.Attach.Descriptors.{hold_all}
use slice.Ebpf.Attach.Ready.{IsReady}
use slice.Ebpf.Attach.Samplers.{is_resume}
use slice.Ebpf.Attach.{
  Kernel, set_up, check_request, load_program, raise_memlock_limit, attach_all, attach_probes,
  attach_process_uprobe, attach_samplers, attach_sampler, open_sampling_event, resume_target,
  sampling_attr, config_bytes,
}
use slice.Ebpf.Capture.Laws.{
  run, capture_pid_ok, capture_pid-effects, capture_pid-replay, capture_pid_ends,
  capture_pid-IsWellFormed, capture_pid_resumes_last, capture_pid-IsSettled,
}
use slice.Ebpf.Capture.Polls.{delivered}
use slice.Ebpf.Capture.{World, last_three, captured, capture_pid}
use slice.Ebpf.Events.Wire.{layout, bytes_of}
use slice.Ebpf.Host.Cpus.{available_cpu_ids, cpus_of_all, cpus_of}
use slice.Ebpf.Replay.Consistent.{IsConsistent}
use slice.Ebpf.Replay.{replay}
use slice.Ebpf.Resolver.{Resolver}
use slice.Ebpf.Ring.Laws.{read_all, is_last, is_failed}
use slice.Ebpf.Ring.Over.{IsZombie}
use slice.Ebpf.Ring.{Round, no_store, receive_all}
use slice.Ebpf.Session.{
  Effect, CaptureFailure, loads_program, writes, config, next_invocation_id, attaches_uprobe,
  attaches_tracepoint, opens_event, attaches_sampler, builds_ring, resumes, raises_memlock,
  attaching_sampler,
}
use slice.Tests.Captures.{in_order}
use slice.Tests.Data.{work}

abbrev no_symbols : Resolver
no_symbols = record { symbols = []; mappings = [] }

-- Every call succeeds.
abbrev pub kernel : Kernel
kernel = record {
  module_is_file = true;
  resolver = ok no_symbols;
  opened = ok tt;
  memlock = some (record { soft = 1; hard = 2 });
  setrlimit = true;
  loaded = ok tt;
  updated = λ to. ok tt;
  online = some (codes "0-1\n");
  parallelism = none;
  canonical = ok (codes "/bin/service");
  uprobe_attached = λ retprobe. ok tt;
  tracepoint_attached = ok tt;
  perf_event_open = λ cpu. ok (cpu + 7);
  sampler_attached = λ fd. ok tt;
  ring_registered = ok tt;
  ring_built = ok tt;
  continued = ok tt;
}

abbrev pub request : CaptureRequest
request = record {
  target = record { pid = 41; kernel_tgid = 9001 };
  module_path = codes "service";
  function = work;
  probe_offset = 64;
  command = codes "./service" ∷ [];
  resume_after_attach = true;
}

-- All effects of the set-up.
set_up_effects :
    (set_up kernel request).0
    ≡ raises_memlock (record { soft = 2; hard = 2 })
      ∷ loads_program
      ∷ writes config (config_bytes 1)
      ∷ writes next_invocation_id (bytes_of 8 1)
      ∷ attaches_uprobe false (codes "/bin/service") 64 41
      ∷ attaches_uprobe true (codes "/bin/service") 64 41
      ∷ attaches_tracepoint
      ∷ opens_event sampling_attr 0 7
      ∷ attaches_sampler 7
      ∷ opens_event sampling_attr 1 8
      ∷ attaches_sampler 8
      ∷ builds_ring
      ∷ resumes 41
      ∷ []
unfolding set_up attach_all check_request load_program raise_memlock_limit raised_limit
    available_cpu_ids cpus_of_all split trim cpus_of parse_unsigned split_once parse_digits
    attach_probes attach_process_uprobe attach_samplers open_sampling_event attach_sampler
    resume_target
set_up_effects = refl

-- No sampler can be attached to the second descriptor.
abbrev refusing : Kernel
refusing = record kernel { sampler_attached = λ fd. if fd == 8 then err (codes "EPERM") else ok tt }

refused_effects :
    (set_up refusing (record request { resume_after_attach = false })).1
    ≡ err (attaching_sampler 1 (codes "EPERM"))
unfolding set_up attach_all check_request load_program raise_memlock_limit raised_limit
    available_cpu_ids cpus_of_all split trim cpus_of parse_unsigned split_once parse_digits
    attach_probes attach_process_uprobe attach_samplers open_sampling_event attach_sampler
    resume_target
refused_effects = refl

set_up_ok : (set_up kernel request).1 ≡ ok no_symbols
unfolding set_up attach_all check_request load_program raise_memlock_limit raised_limit
    available_cpu_ids cpus_of_all split trim cpus_of parse_unsigned split_once parse_digits
    attach_probes attach_process_uprobe attach_samplers open_sampling_event attach_sampler
    resume_target
set_up_ok = refl

abbrev pub no_stack_map : ℕ → Option (List ℕ)
no_stack_map id = none

-- A record of the invocation without a stack.
abbrev pub record_of : (kind timestamp_ns : ℕ) → List ℕ
record_of kind timestamp_ns = layout kind 10 timestamp_ns 1 0xffff_ffff 0 0

abbrev pub round : List ((ℕ → Option (List ℕ)) × List ℕ) → Round
round delivered = record {
  status = some (codes "State:\tS (sleeping)\n");
  stop_before = false;
  delivered = delivered;
  polled = ok tt;
  stop_after = false;
}

-- The entry and a record that is too short come in the first round, the return in the last polls.
abbrev pub world : World
world = record {
  task = some (codes "10", some (codes "main\n")) ∷ [];
  rounds =
      round ((no_stack_map, 1 ∷ 2 ∷ []) ∷ (no_stack_map, record_of 1 5) ∷ [])
      ∷ record (round []) { status = none }
      ∷ [];
  last_polls = λ index. round (if index == 0 then (no_stack_map, record_of 2 9) ∷ [] else []);
  dropped_events = none;
  dropped_samples = none;
  probe_diagnostics = λ index. none;
  observed_tgid = none;
  since_epoch = some 1;
  osrelease = some (codes "6.8.0\n");
  monotonic = (0, 50);
}

pub loop_ends : any is_last world.rounds ≡ true
unfolding process_exists lines split strip_suffix words_after
loop_ends = refl

no_poll_fails : any is_failed (world.rounds ++ last_three world) ≡ false
unfolding poll_ring
no_poll_fails = refl

pub border : ℕ → ℕ
border id = 7

pub delivered-IsConsistent : All (IsConsistent (λ id. 10) border) (read_all (delivered world))
unfolding process_exists lines split strip_suffix words_after poll_ring read_event border
delivered-IsConsistent = (
  record { on_thread = λ k. refl; entered = λ k. omega arith; returned = λ k. omega (arith, k) },
  (
    record { on_thread = λ k. refl; entered = λ k. omega (arith, k); returned = λ k. omega arith },
    tt,
  ),
)

pub few_delivered : length (read_all (delivered world)) < u32_max
unfolding process_exists lines split strip_suffix words_after poll_ring read_event
few_delivered = omega arith

capture_pid-IsWellFormed_example :
    (p : Profile) × ((run in_order in_order kernel world request).outcome ≡ some (ok p))
    × IsWellFormed p
capture_pid-IsWellFormed_example =
    capture_pid-IsWellFormed in_order in_order kernel world request (λ is. Perm.rfl)
      (λ as'. Perm.rfl) no_symbols set_up_ok loop_ends no_poll_fails (λ id. 10) border
      delivered-IsConsistent few_delivered

abbrev zombie_status : Text
zombie_status = codes "Name:\tx\nState:\tZ (zombie)\n"

abbrev zombie : Round
zombie = record (round []) { status = some zombie_status }

zombie_status-IsZombie : IsZombie zombie_status
unfolding lines split strip_suffix words_after
zombie_status-IsZombie = record {
  line = codes "State:\tZ (zombie)";
  shown = refl;
  label = codes "State:";
  more = codes "(zombie)" ∷ [];
  state = refl;
}

capture_pid_ends_example :
    (result : Result CaptureFailure Profile) × ((after : List Round)
      → (capture_pid in_order in_order kernel
          (record world { rounds = round [] ∷ zombie ∷ after })
          request).outcome
        ≡ some result)
capture_pid_ends_example =
    capture_pid_ends in_order in_order kernel world request (round [] ∷ []) zombie
      (inr (inr (zombie_status, refl, zombie_status-IsZombie)))

abbrev pub replayed : Profile
replayed =
    replay in_order in_order
      (captured world request no_symbols (receive_all (delivered world) no_store))

pub returned : (run in_order in_order kernel world request).outcome ≡ some (ok replayed)
returned =
    capture_pid_ok in_order in_order kernel world request no_symbols set_up_ok loop_ends
      no_poll_fails

capture_pid-replay_example :
    (resolver : Resolver) × ((set_up kernel request).1 ≡ ok resolver)
    × (replayed
        ≡ replay in_order in_order
            (captured world request resolver (receive_all (delivered world) no_store)))
capture_pid-replay_example =
    capture_pid-replay in_order in_order kernel world request replayed returned

resumed : any is_resume (run in_order in_order kernel world request).effects ≡ true
resumed = rw (capture_pid-effects, set_up_effects) refl

capture_pid_resumes_last_example :
    (before : List Effect) × ((run in_order in_order kernel world request).effects
      ≡ before ++ resumes 41 ∷ [])
    × (any is_resume before ≡ false)
    × (true ≡ true)
    × IsReady kernel request before
capture_pid_resumes_last_example =
    capture_pid_resumes_last in_order in_order kernel world request resumed

capture_pid-IsSettled_example :
    hold_all none (run in_order in_order refusing world request).effects ≡ some none
capture_pid-IsSettled_example = capture_pid-IsSettled in_order in_order refusing world request
