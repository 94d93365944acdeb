-- ===== src/RepoCheck.antt =====
-- tools/repo-check/src/main.rs: the checks of the repository, over its tree of files.
pub mod Visit
pub mod Sources
pub mod Boundary
pub mod Finds
pub mod Links
pub mod Pins
pub mod Layers
pub mod Run
use slice.Base.{ℕ, Bool, not, Option, none, some, List, [], ◌∷◌, ◌++◌, map, select, Result, ok, err}
use slice.Data.Text.{Text, codes}

-- The paths that `required_paths` asks for.
abbrev pub required : List Text
required =
    codes "AGENTS.md"
    ∷ codes "ARCHITECTURE.md"
    ∷ codes ".codex/hooks.json"
    ∷ codes "justfile"
    ∷ codes "rust-toolchain.toml"
    ∷ codes "docs/index.md"
    ∷ codes "docs/testing.md"
    ∷ codes "docs/security.md"
    ∷ codes "docs/github.md"
    ∷ codes "docs/quality.md"
    ∷ codes "docs/plans/active/index.md"
    ∷ codes "docs/plans/completed"
    ∷ codes "docs/tech-debt.md"
    ∷ codes ".github/pull_request_template.md"
    ∷ codes ".github/dependabot.yml"
    ∷ codes ".github/agent-policy.yml"
    ∷ codes ".github/actionlint.yaml"
    ∷ codes "tests/viewer-smoke.sh"
    ∷ codes "tests/viewer-smoke.js"
    ∷ []

-- The missing paths are the error.
abbrev pub none_or_all {ℓ} : {A : Type ℓ} → List A → Result (List A) (Unit {0})
none_or_all [] = ok tt
none_or_all (x ∷ xs) = err (x ∷ xs)

unfoldable pub required_paths : (exists : Text → Bool) → Result (List Text) (Unit {0})
required_paths exists = none_or_all (select (λ path. not (exists path)) required)
