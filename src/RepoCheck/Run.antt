-- ===== src/RepoCheck/Run.antt =====
-- tools/repo-check/src/main.rs: `workspace_root`, and `run`, which makes the five checks in turn. What
-- cargo prints, what paths exist and the files of the repository are inputs.
pub mod Contract
use slice.Base.{
  ◌≡◌, ℕ, Bool, not, Option, none, some, List, Result, ok, err, map_err, or_fail, guard, ◌>>=◌,
  ◌>>◌,
}
use slice.Data.Text.{Text, codes}
use slice.RepoCheck.Layers.{Json, LayerError, dependency_layers}
use slice.RepoCheck.Links.{LinkError, markdown_links}
use slice.RepoCheck.Pins.{PinError, workflow_pins}
use slice.RepoCheck.Sources.{BoundaryError, unsafe_boundary}
use slice.RepoCheck.Visit.{Node, FilePath}
use slice.RepoCheck.{required_paths}

pub data RunError : Type 0 where
  no_cargo cargo_failed no_metadata no_root : RunError
  missing_paths : List Text → RunError
  layers : LayerError → RunError
  boundary : BoundaryError → RunError
  links : LinkError → RunError
  pins : PinError → RunError

-- How `cargo metadata` ended, with what it printed as JSON.
pub record Output (Value : Type 0) : Type 0 where
  pub success : Bool
  pub stdout : Option Value

module _ {Value : Type 0} (json : Json Value) where
  unfoldable pub metadata_of : Option (Output Value) → Result RunError Value
  metadata_of output = do
    finished ← or_fail output no_cargo
    guard finished.success cargo_failed
    or_fail finished.stdout no_metadata

  unfoldable pub workspace_root : Option (Output Value) → Result RunError Text
  workspace_root output = do
    metadata ← metadata_of output
    root ← or_fail (json.get (codes "workspace_root") metadata) no_root
    or_fail (json.as_str root) no_root

  -- Cargo is run twice: for the root and for the layers.
  unfoldable pub run :
      (first second : Option (Output Value)) (exists : Text → Bool)
      (exists_from : FilePath → Text → Bool) (root crates : Node) (workflows : Option Node)
      → Result RunError (Unit {0})
  run first second exists exists_from root crates workflows = do
    path ← workspace_root first
    map_err missing_paths (required_paths exists)
    metadata ← metadata_of second
    map_err layers (dependency_layers json metadata)
    map_err boundary (unsafe_boundary crates)
    map_err links (markdown_links exists_from root)
    map_err pins (workflow_pins workflows)
