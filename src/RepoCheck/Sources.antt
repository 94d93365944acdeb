-- ===== src/RepoCheck/Sources.antt =====
-- tools/repo-check/src/main.rs: `unsafe_boundary`.
pub mod Word
use mathlib.Core.List.{reverse}
use slice.Base.{
  ℕ, Bool, true, false, not, ◌&&◌, ◌||◌, Option, none, some, List, [], ◌∷◌, ◌++◌, any, leb, ◌==◌,
  if◌then◌else◌, Result, ok, err,
}
use slice.Data.Numerals.{split_once, is_digit}
use slice.Data.Text.{Text, codes, text_eq}
use slice.RepoCheck.Visit.{FilePath, Node, VisitError, visit_files}

-- `Path::extension`: what follows the last dot, unless the name begins with it.
unfoldable pub extension : Text → Option Text
extension name = elim (split_once 46 (reverse name)) [
  | none ↦ none
  | some (after, before) ↦ elim before [ [] ↦ none | c ∷ s ↦ some (reverse after) ]
]

abbrev pub file_name : FilePath → Text
file_name [] = []
file_name (name ∷ []) = name
file_name (name ∷ next ∷ path) = file_name (next ∷ path)

abbrev pub has_extension : Text → FilePath → Bool
has_extension wanted path = elim (extension (file_name path)) [
  | none ↦ false
  | some found ↦ text_eq found wanted
]

-- `Path::starts_with`, by components.
abbrev pub is_under : FilePath → FilePath → Bool
is_under [] path = true
is_under (a ∷ folder) [] = false
is_under (a ∷ folder) (b ∷ path) = text_eq a b && is_under folder path

abbrev is_letter : ℕ → Bool
is_letter c = (leb 65 c && leb c 90) || (leb 97 c && leb c 122)

abbrev pub is_word_character : ℕ → Bool
is_word_character c = is_letter c || is_digit c || (c == 95)

-- `split` at every character that is no part of a word.
abbrev prepend_first : ℕ → List Text → List Text
prepend_first c [] = (c ∷ []) ∷ []
prepend_first c (part ∷ parts) = (c ∷ part) ∷ parts

unfoldable pub words_of : Text → List Text
words_of [] = [] ∷ []
words_of (c ∷ s) =
    let parts = words_of s in if is_word_character c then prepend_first c parts else [] ∷ parts

abbrev pub mentions_unsafe : Option Text → Bool
mentions_unsafe none = false
mentions_unsafe (some source) = any (text_eq (codes "unsafe")) (words_of source)

-- A file of Rust outside `crates/slice-ebpf`; the paths are those from the root.
abbrev pub is_checked : FilePath → Bool
is_checked path =
    has_extension (codes "rs") path
    && not (is_under (codes "crates" ∷ codes "slice-ebpf" ∷ []) path)

unfoldable pub note_unsafe : FilePath → Option Text → List FilePath → List FilePath
note_unsafe path text violations =
    if is_checked path && mentions_unsafe text then violations ++ path ∷ [] else violations

pub data BoundaryError : Type 0 where
  not_visited : VisitError → BoundaryError
  unsafe_outside : List FilePath → BoundaryError

abbrev pub boundary_of : Result VisitError (List FilePath) → Result BoundaryError (Unit {0})
boundary_of (err e) = err (not_visited e)
boundary_of (ok []) = ok tt
boundary_of (ok (path ∷ paths)) = err (unsafe_outside (path ∷ paths))

-- Over the directory `crates` of the root.
unfoldable pub unsafe_boundary : (crates : Node) → Result BoundaryError (Unit {0})
unsafe_boundary crates = boundary_of (visit_files note_unsafe (codes "crates" ∷ []) crates [])
