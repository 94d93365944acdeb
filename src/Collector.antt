-- ===== src/Collector.antt =====
-- crates/slice-collector/src/lib.rs: the state and the events of the correlator.
pub mod Stacks
pub mod Source
pub mod Push
pub mod Counters
pub mod Finish
pub mod Fits
pub mod Histories
pub mod Order
use slice.Base.{ℕ, Bool, false, Option, List, []}
use slice.Core.Profile.{ExecutionState, Frame, Profile, CaptureQuality}
use slice.Data.Words.{sat_add}

pub record ActiveInvocation : Type 0 where
  pub id : ℕ
  pub function_id : ℕ
  pub tid : ℕ
  pub start_ns : ℕ
  pub valid : Bool

pub record PendingSample : Type 0 where
  pub tid : ℕ
  pub timestamp_ns : ℕ
  pub cpu : ℕ
  pub state : ExecutionState
  pub weight_ns : ℕ
  pub frames : List Frame

pub record SourceInvocation : Type 0 where
  pub id : ℕ
  pub function_id : Option ℕ
  pub tid : ℕ
  pub start_ns : Option ℕ
  pub end_ns : Option ℕ
  pub saw_entry : Bool
  pub saw_return : Bool
  pub valid : Bool
  pub samples : List PendingSample

pub data CollectorEvent : Type 0 where
  entry : (invocation_id : Option ℕ) (function_id tid timestamp_ns : ℕ) → CollectorEvent
  return : (invocation_id : Option ℕ) (function_id tid timestamp_ns : ℕ) → CollectorEvent
  violation : (tid timestamp_ns : ℕ) → CollectorEvent
  sample :
      (invocation_id : Option ℕ) (tid timestamp_ns cpu : ℕ) (state : ExecutionState) (weight_ns : ℕ)
      (frames : List Frame)
      → CollectorEvent
  dropped_events : (count : ℕ) → CollectorEvent
  dropped_samples : (count : ℕ) → CollectorEvent

pub record Correlator : Type 0 where
  pub next_invocation_id : ℕ
  pub next_stack_id : ℕ
  pub active : List (ℕ × ActiveInvocation)
  pub stack_ids : List (List Frame × ℕ)
  pub source_invocations : List (ℕ × SourceInvocation)
  pub source_mode : Bool
  pub source_violations : List (ℕ × ℕ)

-- `Correlator::default`.
abbrev pub default : Correlator
default = record {
  next_invocation_id = 1;
  next_stack_id = 1;
  active = [];
  stack_ids = [];
  source_invocations = [];
  source_mode = false;
  source_violations = [];
}

-- A method changes the correlator and the profile.
abbrev pub State : Type 0
State = Correlator × Profile

-- A change of the quality counters alone.
abbrev pub with_quality : (CaptureQuality → CaptureQuality) → Profile → Profile
with_quality f p = record p { quality = f p.quality }

abbrev pub count_event : CaptureQuality → CaptureQuality
count_event q = record q { events_generated = sat_add q.events_generated 1 }

abbrev pub count_sample : CaptureQuality → CaptureQuality
count_sample q = record q { samples_generated = sat_add q.samples_generated 1 }

abbrev pub count_complete : CaptureQuality → CaptureQuality
count_complete q = record q { complete_invocations = sat_add q.complete_invocations 1 }

abbrev pub count_incomplete : CaptureQuality → CaptureQuality
count_incomplete q = record q { incomplete_invocations = sat_add q.incomplete_invocations 1 }

abbrev pub count_mismatch : CaptureQuality → CaptureQuality
count_mismatch q = record q { stack_mismatches = sat_add q.stack_mismatches 1 }

abbrev pub count_async_violation : CaptureQuality → CaptureQuality
count_async_violation q = record q {
  suspected_async_violations = sat_add q.suspected_async_violations 1;
}
