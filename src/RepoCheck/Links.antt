-- ===== src/RepoCheck/Links.antt =====
-- tools/repo-check/src/main.rs: `markdown_links`.
pub mod Exact
pub mod Fuel
pub mod Reading
use mathlib.Core.List.{reverse}
use slice.Base.{
  ℕ, zero, suc, Bool, true, false, not, ◌&&◌, ◌||◌, Option, none, some, List, [], ◌∷◌, ◌++◌, map,
  length, ◌==◌, if◌then◌else◌, Result, ok, err,
}
use slice.Data.Numerals.{split_once, trim, starts_with}
use slice.Data.Text.{Text, codes, strip_prefix}
use slice.RepoCheck.Sources.{has_extension, is_under}
use slice.RepoCheck.Visit.{FilePath, Node, VisitError, visit_files}

-- What follows the first `](`.
unfoldable pub after_bracket : Text → Option Text
after_bracket [] = none
after_bracket (c ∷ s) = elim (strip_prefix (codes "](") (c ∷ s)) [
  | none ↦ after_bracket s
  | some rest ↦ some rest
]

-- `trim_matches` of one character.
abbrev drop_all : ℕ → Text → Text
drop_all at [] = []
drop_all at (c ∷ s) = if c == at then drop_all at s else c ∷ s

abbrev trim_all : ℕ → Text → Text
trim_all at s = reverse (drop_all at (reverse (drop_all at s)))

-- The part before the first `#`.
abbrev before_hash : Text → Text
before_hash s = elim (split_once 35 s) [ none ↦ s | some (before, after) ↦ before ]

abbrev pub target_of : Text → Text
target_of s = before_hash (trim_all 62 (trim_all 60 (trim s)))

-- The targets of the links, one round of the loop for each.
unfoldable pub targets : ℕ → Text → List Text
targets zero text = []
targets (suc fuel) text = elim (after_bracket text) [
  | none ↦ []
  | some rest ↦ elim (split_once 41 rest) [
    | none ↦ []
    | some (inside, after) ↦ target_of inside ∷ targets fuel after
  ]
]

abbrev is_empty : Text → Bool
is_empty [] = true
is_empty (c ∷ s) = false

-- A target that is neither empty nor elsewhere.
abbrev pub is_local : Text → Bool
is_local target =
    not (is_empty target)
    && not (starts_with (codes "http://") target)
    && not (starts_with (codes "https://") target)
    && not (starts_with (codes "mailto:") target)
    && not (starts_with (codes "/") target)

-- The directory of a file.
abbrev pub parent : FilePath → FilePath
parent [] = []
parent (name ∷ []) = []
parent (name ∷ next ∷ path) = name ∷ parent (next ∷ path)

pub data LinkError : Type 0 where
  not_visited : VisitError → LinkError
  broken_local : List (FilePath × Text) → LinkError

abbrev pub links_of : Result VisitError (List (FilePath × Text)) → Result LinkError (Unit {0})
links_of (err e) = err (not_visited e)
links_of (ok []) = ok tt
links_of (ok (link ∷ links)) = err (broken_local (link ∷ links))

module _ (exists : FilePath → Text → Bool) where
  unfoldable pub broken_links : FilePath → List Text → List (FilePath × Text)
  broken_links path [] = []
  broken_links path (target ∷ rest) =
      let more = broken_links path rest in
      if is_local target && not (exists (parent path) target) then (path, target) ∷ more else more

  unfoldable pub note_broken :
      FilePath → Option Text → List (FilePath × Text) → List (FilePath × Text)
  note_broken path none found = found
  note_broken path (some source) found =
      if has_extension (codes "md") path && not (is_under (codes ".git" ∷ []) path)
      then found ++ broken_links path (targets (suc (length source)) source)
      else found

  unfoldable pub markdown_links : (root : Node) → Result LinkError (Unit {0})
  markdown_links root = links_of (visit_files note_broken [] root [])
