-- ===== src/Cli/Commands.antt =====
-- crates/slice-cli/src/main.rs: `Command`, as the library that parses the command line gives it, and
-- what `main` does with it.
use slice.Base.{ℕ, Bool, Option, none, some, List}
use slice.Cli.Arguments.{CliMetric, from_cli}
use slice.Cli.Summary.{Requirements}
use slice.Cli.View.{Arguments}
use slice.Core.Profile.{Metric}
use slice.Data.Text.{Text, codes}

pub data Command : Type 0 where
  symbols : (binary : Text) (module_path wanted : Option Text) → Command
  profile :
      (pid : Option ℕ) (module_path : Option Text) (function output : Text) (program : Option Text)
      (args : List Text)
      → Command
  view :
      (profile output : Text) (threads time : Option Text) (percentile : Text) (metric : CliMetric)
      → Command
  discover : (profile : Text) (metric : CliMetric) → Command
  doctor : Command
  validate : (profile : Text) (require_complete require_samples require_off_cpu : Bool) → Command

-- The values of the options that are left out.
abbrev default_capture : Text
default_capture = codes "capture.slice"

abbrev default_page : Text
default_page = codes "profile.html"

abbrev default_percentile : Text
default_percentile = codes "0:100"

-- The functions of the commands, which all return the same type.
pub record Handlers (R : Type 0) : Type 0 where
  pub list_symbols : (path : Text) (needle : Option Text) → R
  pub profile :
      (pid : Option ℕ) (module_path : Option Text) (function output : Text) (program : Option Text)
      (args : List Text)
      → R
  pub view : (profile output : Text) → Arguments → R
  pub discover : (profile : Text) → Metric → R
  pub doctor : R
  pub validate : (profile : Text) → Requirements → R

abbrev or_else : Option Text → Text → Text
or_else none text = text
or_else (some text) other = text

unfoldable pub main : {R : Type 0} → Handlers R → Command → R
main h (symbols binary module_path wanted) = h.list_symbols (or_else module_path binary) wanted
main h (Command.profile pid module_path function output program args) =
    h.profile pid module_path function output program args
main h (Command.view capture output threads time percentile metric) =
    h.view capture output
      (record { threads = threads; time = time; percentile = percentile; metric = from_cli metric })
main h (Command.discover capture metric) = h.discover capture (from_cli metric)
main h Command.doctor = h.doctor
main h (Command.validate capture require_complete require_samples require_off_cpu) =
    h.validate capture (record {
      require_complete = require_complete;
      require_samples = require_samples;
      require_off_cpu = require_off_cpu;
    })
