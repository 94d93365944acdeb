-- ===== src/Collector/Push.antt =====
-- crates/slice-collector/src/lib.rs: `Correlator::push`, one function for each kind of event.
use slice.Base.{
  ℕ, Bool, true, false, ◌&&◌, Option, none, some, List, [], ◌∷◌, ◌++◌, ltb, leb, ◌==◌,
  if◌then◌else◌, max,
}
use slice.Collector.{
  Correlator, State, ActiveInvocation, PendingSample, CollectorEvent, entry, return, violation,
  sample, dropped_events, dropped_samples, with_quality, count_event, count_sample, count_complete,
  count_incomplete, count_mismatch, count_async_violation,
}
use slice.Collector.Source.{source_entry, source_return, source_sample}
use slice.Collector.Stacks.{append_sample}
use slice.Core.Profile.{Profile, Invocation}
use slice.Data.Maps.{get, insert, remove}
use slice.Data.Words.{sat_add}

-- An invocation of the profile, from one that was active; it has no parent.
abbrev pub close : ActiveInvocation → (tid end_ns : ℕ) (complete valid : Bool) → Invocation
close a tid end_ns complete valid = record {
  id = a.id;
  function_id = a.function_id;
  parent_id = none;
  tid = tid;
  start_ns = a.start_ns;
  end_ns = end_ns;
  complete = complete;
  valid = valid;
}

abbrev pub add_invocation : Invocation → Profile → Profile
add_invocation i p = record p { invocations = p.invocations ++ i ∷ [] }

-- An entry that overlaps an active invocation of the thread ends that one as incomplete.
unfoldable pub displace : Option ActiveInvocation → (tid timestamp_ns : ℕ) → Profile → Profile
displace none tid timestamp_ns p = p
displace (some existing) tid timestamp_ns p =
    with_quality (λ q. count_async_violation (count_mismatch (count_incomplete q)))
      (add_invocation (close existing tid (max timestamp_ns existing.start_ns) false false) p)

unfoldable pub local_entry : State → (function_id tid timestamp_ns : ℕ) → State
local_entry (c, p) function_id tid timestamp_ns = (
  record c {
    next_invocation_id = sat_add c.next_invocation_id 1;
    active =
        insert tid
          (record {
            id = c.next_invocation_id;
            function_id = function_id;
            tid = tid;
            start_ns = timestamp_ns;
            valid = true;
          })
          (remove tid c.active);
  },
  displace (get tid c.active) tid timestamp_ns p,
)

-- A return closes the active invocation of its thread, or counts as a mismatch.
unfoldable pub conclude :
    Option ActiveInvocation → (function_id tid timestamp_ns : ℕ) → Profile → Profile
conclude none function_id tid timestamp_ns p = with_quality count_mismatch p
conclude (some a) function_id tid timestamp_ns p =
    let valid = a.valid && ((a.function_id == function_id) && leb a.start_ns timestamp_ns) in
    with_quality (λ q. if valid then count_complete q else count_incomplete (count_mismatch q))
      (add_invocation (close a tid timestamp_ns true valid) p)

unfoldable pub local_return : State → (function_id tid timestamp_ns : ℕ) → State
local_return (c, p) function_id tid timestamp_ns = (
  record c { active = remove tid c.active },
  conclude (get tid c.active) function_id tid timestamp_ns p,
)

unfoldable pub local_violation : State → (tid timestamp_ns : ℕ) → State
local_violation (c, p) tid timestamp_ns = elim (get tid c.active) [
  | none ↦ (c, with_quality count_mismatch p)
  | some a ↦ (
    record c { active = insert tid (record a { valid = false }) c.active },
    with_quality
        (λ q.
          let q' = count_async_violation (count_mismatch q) in
          if ltb timestamp_ns a.start_ns then count_mismatch q' else q')
        p,
  )
]

-- A sample belongs to the active invocation of its thread, unless that is invalid.
unfoldable pub local_sample : State → PendingSample → State
local_sample (c, p) s = elim (get s.tid c.active) [
  | none ↦ (c, p)
  | some a ↦ if a.valid then append_sample (c, p) a.id s else (c, p)
]

abbrev in_source_mode : Correlator → Correlator
in_source_mode c = record c { source_mode = true }

unfoldable pub push : State → CollectorEvent → State
push (c, p) (entry none function_id tid timestamp_ns) =
    local_entry (c, with_quality count_event p) function_id tid timestamp_ns
push (c, p) (entry (some id) function_id tid timestamp_ns) =
    (source_entry (in_source_mode c) id function_id tid timestamp_ns, with_quality count_event p)
push (c, p) (return none function_id tid timestamp_ns) =
    local_return (c, with_quality count_event p) function_id tid timestamp_ns
push (c, p) (return (some id) function_id tid timestamp_ns) =
    (source_return (in_source_mode c) id function_id tid timestamp_ns, with_quality count_event p)
push (c, p) (violation tid timestamp_ns) =
    local_violation
      (
        record c { source_violations = c.source_violations ++ (tid, timestamp_ns) ∷ [] },
        with_quality count_event p,
      )
      tid timestamp_ns
push (c, p) (sample none tid timestamp_ns cpu state weight_ns frames) =
    local_sample (c, with_quality count_sample p)
      (record {
        tid = tid;
        timestamp_ns = timestamp_ns;
        cpu = cpu;
        state = state;
        weight_ns = weight_ns;
        frames = frames;
      })
push (c, p) (sample (some id) tid timestamp_ns cpu state weight_ns frames) = (
  source_sample (in_source_mode c) id (record {
    tid = tid;
    timestamp_ns = timestamp_ns;
    cpu = cpu;
    state = state;
    weight_ns = weight_ns;
    frames = frames;
  }),
  with_quality count_sample p,
)
push (c, p) (dropped_events count) =
    (c, with_quality (λ q. record q { events_dropped = sat_add q.events_dropped count }) p)
push (c, p) (dropped_samples count) =
    (c, with_quality (λ q. record q { samples_dropped = sat_add q.samples_dropped count }) p)

unfoldable pub push_all : State → List CollectorEvent → State
push_all s [] = s
push_all s (e ∷ es) = push_all (push s e) es
