-- ===== src/Ebpf/Attach/Ready.antt =====
-- What the set-up of a capture has attached when it succeeds.
use slice.Base.{ℕ, ◌≡◌, true, false, List, Mem, All, ok, map_err, map_err-eq-ok}
use slice.Capture.{CaptureRequest}
use slice.Data.Text.{Text}
use slice.Ebpf.Attach.Samplers.{HasSampler, HasSampler-more, attach_samplers-HasSampler}
use slice.Ebpf.Attach.{
  Kernel, config_bytes, attach_process_uprobe, load_program, attach_probes, check_request,
  attach_all,
}
use slice.Ebpf.Events.Wire.{bytes_of}
use slice.Ebpf.Host.Cpus.{available_cpu_ids}
use slice.Ebpf.Resolver.{Resolver}
use slice.Ebpf.Session.Steps.{
  >>=-returns, Ensures, >>=-Ensures_first, >>=-Ensures_next, perform-Ensures,
}
use slice.Ebpf.Session.{
  Effect, writes, attaches_uprobe, attaches_tracepoint, config, next_invocation_id, require,
  perform, no_cpu_ids, canonicalizing, attaching_tracepoint,
}

-- Everything that a capture needs is among the effects.
pub record IsReady (k : Kernel) (request : CaptureRequest) (done : List Effect) : Type 0 where
  pub cpus : List ℕ
  pub path : Text
  pub cpus_known : available_cpu_ids k.online k.parallelism ≡ ok cpus
  pub path_known : k.canonical ≡ ok path
  pub entry : Mem (attaches_uprobe false path request.probe_offset request.target.pid) done
  pub exit : Mem (attaches_uprobe true path request.probe_offset request.target.pid) done
  pub scheduler : Mem attaches_tracepoint done
  pub samplers : All (HasSampler done) cpus
  pub configured : Mem (writes config (config_bytes request.function.id)) done
  pub numbered : Mem (writes next_invocation_id (bytes_of 8 1)) done

module _ (k : Kernel) (request : CaptureRequest) where
  load_program-Ensures :
      Ensures (writes config (config_bytes request.function.id)) (load_program k request)
      × Ensures (writes next_invocation_id (bytes_of 8 1)) (load_program k request)
  unfolding load_program
  load_program-Ensures = (
    search (>>=-Ensures_first, >>=-Ensures_next, perform-Ensures) depth 20,
    search (>>=-Ensures_first, >>=-Ensures_next, perform-Ensures) depth 20,
  )

  attach_probes-Ensures :
      (path : Text) (cpus : List ℕ)
      → Ensures
          (attaches_uprobe false path request.probe_offset request.target.pid)
          (attach_probes k request path cpus)
        × Ensures
            (attaches_uprobe true path request.probe_offset request.target.pid)
            (attach_probes k request path cpus)
        × Ensures attaches_tracepoint (attach_probes k request path cpus)
  unfolding attach_probes attach_process_uprobe
  attach_probes-Ensures path cpus = (
    search (>>=-Ensures_first, >>=-Ensures_next, perform-Ensures) depth 20,
    search (>>=-Ensures_first, >>=-Ensures_next, perform-Ensures) depth 20,
    search (>>=-Ensures_first, >>=-Ensures_next, perform-Ensures) depth 20,
  )

  attach_probes-HasSampler :
      (path : Text) (cpus : List ℕ) {u : Unit {0}}
      → (attach_probes k request path cpus).1 ≡ ok u
      → All (HasSampler (attach_probes k request path cpus).0) cpus
  unfolding attach_probes
  attach_probes-HasSampler path cpus h =
      let (u1, done1, h1, in1, rest1) =
        >>=-returns (attach_process_uprobe k path request.probe_offset false request.target.pid) _
          h in
      let (u2, done2, h2, in2, rest2) =
        >>=-returns (attach_process_uprobe k path request.probe_offset true request.target.pid) _
          h1 in
      let (u3, done3, h3, in3, rest3) =
        >>=-returns
          (perform attaches_tracepoint (map_err attaching_tracepoint k.tracepoint_attached)) _ h2 in
      HasSampler-more _ _ (λ x m. rest1 x (rest2 x (rest3 x m))) cpus
        (attach_samplers-HasSampler k cpus h3)

  pub attach_all-IsReady :
      (resolver : Resolver)
      → (attach_all k request).1 ≡ ok resolver
      → IsReady k request (attach_all k request).0
  unfolding attach_all
  attach_all-IsReady resolver h =
      let (r, checked, h1, in1, rest1) = >>=-returns (check_request k request) _ h in
      let (u2, loads, h2, in2, rest2) = >>=-returns (load_program k request) _ h1 in
      let (cpus, known, h3, in3, rest3) =
        >>=-returns (require (map_err no_cpu_ids (available_cpu_ids k.online k.parallelism))) _
          h2 in
      let (path, found, h4, in4, rest4) =
        >>=-returns (require (map_err canonicalizing k.canonical)) _ h3 in
      let (u5, probes, h5, in5, rest5) = >>=-returns (attach_probes k request path cpus) _ h4 in
      let loaded = λ (x : Effect) (m : Mem x (load_program k request).0). rest1 x (in2 x m) in
      let probed = λ (x : Effect) (m : Mem x (attach_probes k request path cpus).0).
        rest1 x (rest2 x (rest3 x (rest4 x (in5 x m)))) in
      let (entry, exit, scheduler) = attach_probes-Ensures path cpus in
      let (configured, numbered) = load_program-Ensures in
      record {
        cpus = cpus;
        path = path;
        cpus_known = map_err-eq-ok no_cpu_ids _ known;
        path_known = map_err-eq-ok canonicalizing _ found;
        entry = probed _ (entry u5 probes);
        exit = probed _ (exit u5 probes);
        scheduler = probed _ (scheduler u5 probes);
        samplers = HasSampler-more _ _ probed cpus (attach_probes-HasSampler path cpus probes);
        configured = loaded _ (configured u2 loads);
        numbered = loaded _ (numbered u2 loads);
      }
