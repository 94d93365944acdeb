-- ===== src/RepoCheck/Run/Contract.antt =====
-- tools/repo-check/src/main.rs: what a repository is like that passes `run`.
use slice.Base.{◌≡◌, Bool, true, [], ◌∷◌, All}
use slice.Data.Text.{Text, codes}
use slice.RepoCheck.Boundary.{IsPinnedFile, IsSafeFile}
use slice.RepoCheck.Layers.Exact.{HasLayer}
use slice.RepoCheck.Layers.{Json, expected_layers}
use slice.RepoCheck.Links.Exact.{IsLinked}
use slice.RepoCheck.Visit.{FilePath, Entries, files_of}
use slice.RepoCheck.{required}

-- The repository is as `run` demands.
pub record IsContract {Value : Type 0} (json : Json Value) (metadata : Value) (exists : Text → Bool)
    (exists_from : FilePath → Text → Bool) (repository crates workflows : Entries) : Type 0 where
  pub complete : All (λ path. exists path ≡ true) required
  pub layered :
      All (λ (crate_name, allowed). HasLayer json metadata crate_name allowed) expected_layers
  pub safe : All (λ (path, text). IsSafeFile path text) (files_of (codes "crates" ∷ []) crates)
  pub linked : All (λ (path, text). IsLinked exists_from path text) (files_of [] repository)
  pub pinned :
      All
        (λ (path, text). IsPinnedFile path text)
        (files_of (codes ".github" ∷ codes "workflows" ∷ []) workflows)
