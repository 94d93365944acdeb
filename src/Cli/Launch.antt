-- ===== src/Cli/Launch.antt =====
-- crates/slice-cli/src/main.rs: `profile`, as what it does to the target and what it returns. How
-- each call of the adapter and of the operating system ends is an input.
pub mod Targets
use slice.Base.{
  ℕ, Bool, true, false, not, ◌&&◌, Option, none, some, List, [], ◌∷◌, ◌++◌, length, select, ◌==◌,
  if◌then◌else◌, Result, ok, err, ◌>>=◌, or_fail,
}
use slice.Cli.Summary.{Summary, sample_summary}
use slice.Cli.Symbols.{SelectedSymbol, SelectError}
use slice.Core.Profile.{Profile, Function}
use slice.Core.Validate.{is_complete}
use slice.Data.Text.{Text}

-- A running process or a program to launch.
pub data Target : Type 0 where
  running : (pid : ℕ) → Target
  launch : (program : Text) → Target

pub data ProfileFailure : Type 0 where
  module_required pid_and_program no_target : ProfileFailure
  no_symbol : SelectError → ProfileFailure
  launch_failed stop_failed identity_failed handler_failed capture_failed : ProfileFailure
  no_complete_invocations : ProfileFailure
  write_failed wait_failed : ProfileFailure

-- The target and the path of its module.
unfoldable pub choose_target :
    (pid : Option ℕ) (module_path program : Option Text) → Result ProfileFailure (Target × Text)
choose_target (some pid) module_path none =
    or_fail module_path module_required >>= λ path. ok (running pid, path)
choose_target none module_path (some program) =
    ok (launch program, elim module_path [ none ↦ program | some path ↦ path ])
choose_target (some pid) module_path (some program) = err pid_and_program
choose_target none module_path none = err no_target

-- How the calls end. `killed` is that of `kill_process`, which no branch looks at. `stopped` is that of `stop_process` and `wait_for_stopped` together; a capture
-- that fails may have resumed the target before.
pub record Outcomes : Type 0 where
  pub symbol : Result SelectError SelectedSymbol
  pub launched : Option ℕ
  pub stopped : Bool
  pub identified : Bool
  pub handler_installed : Bool
  pub captured : Option Profile
  pub resumed : Bool
  pub written : Bool
  pub waited : Bool
  pub killed : Bool

-- What is done to the process that was launched, and where it may fail, whether it succeeds. A
-- capture resumes it when its probes are attached.
pub data Action : Type 0 where
  launches resumes : (pid : ℕ) → Action
  stops kills waits : (succeeds : Bool) (pid : ℕ) → Action

abbrev pub Run : Type 0
Run = List Action × Result ProfileFailure Summary

-- What is done to a launched process, and nothing to one that runs already.
abbrev pub if_launched : Option ℕ → (ℕ → Action) → List Action
if_launched none act = []
if_launched (some pid) act = act pid ∷ []

abbrev pub then_do : List Action → Run → Run
then_do actions (more, r) = (actions ++ more, r)

unfoldable pub function_of : Text → SelectedSymbol → Function
function_of module_path s = record {
  id = 1;
  module_path = module_path;
  module_build_id = none;
  address = s.address;
  name = s.raw_name;
  demangled_name = s.demangled_name;
  source_file = none;
  line = none;
}

-- The last step: the launched target is waited for.
unfoldable pub conclude : Outcomes → Option ℕ → Profile → Run
conclude o none p = ([], ok (sample_summary p))
conclude o (some pid) p =
    if o.waited
    then (waits true pid ∷ [], ok (sample_summary p))
    else (waits false pid ∷ [], err wait_failed)

unfoldable pub keep_profile : Outcomes → Option ℕ → Profile → Run
keep_profile o child p =
    if length (select is_complete p.invocations) == 0
    then ([], err no_complete_invocations)
    else if o.written
    then conclude o child p
    else (if_launched child (kills o.killed), err write_failed)

unfoldable pub run_capture : Outcomes → Option ℕ → Run
run_capture o child = elim o.captured [
  | none ↦ (
    (if o.resumed then if_launched child resumes else []) ++ if_launched child (kills o.killed),
    err capture_failed,
  )
  | some p ↦ then_do (if_launched child resumes) (keep_profile o child p)
]

unfoldable pub prepare_capture : Outcomes → Option ℕ → Run
prepare_capture o child =
    if not o.identified
    then ([], err identity_failed)
    else if not o.handler_installed
    then (if_launched child (kills o.killed), err handler_failed)
    else run_capture o child

unfoldable pub start_target : Outcomes → Target → Run
start_target o (running pid) = prepare_capture o none
start_target o (launch program) = elim o.launched [
  | none ↦ ([], err launch_failed)
  | some pid ↦
      if o.stopped
      then then_do (launches pid ∷ stops true pid ∷ []) (prepare_capture o (some pid))
      else (launches pid ∷ stops false pid ∷ kills o.killed pid ∷ [], err stop_failed)
]

unfoldable pub profile : (pid : Option ℕ) (module_path program : Option Text) → Outcomes → Run
profile pid module_path program o = elim (choose_target pid module_path program) [
  | err e ↦ ([], err e)
  | ok (target, path) ↦ elim o.symbol [
    | err e ↦ ([], err (no_symbol e))
    | ok symbol ↦ start_target o target
  ]
]
