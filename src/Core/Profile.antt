-- ===== src/Core/Profile.antt =====
-- crates/slice-core/src/lib.rs: the records of a profile, in the source's order of declaration.
-- A field named `module` is `module_path` here.
use slice.Base.{ℕ, ◌-◌, Bool, true, false, leb, ltb, ◌&&◌, Option, List}
use slice.Data.Text.{Text}

pub record Metadata : Type 0 where
  pub captured_at_unix_ns : ℕ
  pub command : List Text
  pub kernel_release : Text
  pub sample_period_ns : ℕ

pub record Function : Type 0 where
  pub id : ℕ
  pub module_path : Text
  pub module_build_id : Option Text
  pub address : ℕ
  pub name : Text
  pub demangled_name : Text
  pub source_file : Option Text
  pub line : Option ℕ

pub record Thread : Type 0 where
  pub tid : ℕ
  pub name : Option Text

pub record Invocation : Type 0 where
  pub id : ℕ
  pub function_id : ℕ
  pub parent_id : Option ℕ
  pub tid : ℕ
  pub start_ns : ℕ
  pub end_ns : ℕ
  pub complete : Bool
  pub valid : Bool

-- `saturating_sub` on `u64` is the subtraction of ℕ.
abbrev pub duration_ns : Invocation → ℕ
duration_ns i = i.end_ns - i.start_ns

pub record Frame : Type 0 where
  pub function_id : Option ℕ
  pub label : Text
  pub module_path : Option Text
  pub address : Option ℕ

pub record Stack : Type 0 where
  pub id : ℕ
  pub frames : List Frame

pub data ExecutionState : Type 0 where
  on_cpu off_cpu : ExecutionState

pub record Sample : Type 0 where
  pub timestamp_ns : ℕ
  pub invocation_id : ℕ
  pub stack_id : ℕ
  pub tid : ℕ
  pub cpu : ℕ
  pub state : ExecutionState
  pub weight_ns : ℕ

pub record CaptureQuality : Type 0 where
  pub events_generated : ℕ
  pub events_dropped : ℕ
  pub samples_generated : ℕ
  pub samples_dropped : ℕ
  pub complete_invocations : ℕ
  pub incomplete_invocations : ℕ
  pub stack_mismatches : ℕ
  pub suspected_async_violations : ℕ

pub record Profile : Type 0 where
  pub format_version : ℕ
  pub metadata : Metadata
  pub functions : List Function
  pub threads : List Thread
  pub invocations : List Invocation
  pub stacks : List Stack
  pub samples : List Sample
  pub quality : CaptureQuality

pub data Metric : Type 0 where
  wall cpu off_cpu : Metric

abbrev pub includes : Metric → ExecutionState → Bool
includes Metric.wall _ = true
includes Metric.cpu ExecutionState.on_cpu = true
includes Metric.off_cpu ExecutionState.off_cpu = true
includes _ _ = false

pub record TimeRange : Type 0 where
  pub from_ns : ℕ
  pub to_ns : ℕ

abbrev pub contains_start : TimeRange → ℕ → Bool
contains_start r timestamp_ns = leb r.from_ns timestamp_ns && ltb timestamp_ns r.to_ns
