-- ===== src/RepoCheck/Pins.antt =====
-- tools/repo-check/src/main.rs: `workflow_pins`.
pub mod Line
use mathlib.Core.List.{reverse}
use slice.Base.{
  ℕ, Bool, true, false, not, ◌&&◌, ◌||◌, Option, none, some, List, [], ◌∷◌, ◌++◌, length, leb, ◌==◌,
  if◌then◌else◌, Result, ok, err,
}
use slice.Data.Numerals.{split_once, is_digit, contains_text, lines}
use slice.Data.Text.{Text, codes}
use slice.Ebpf.Host.{first_word}
use slice.RepoCheck.Sources.{has_extension}
use slice.RepoCheck.Visit.{FilePath, Node, VisitError, visit_files}

abbrev is_hex_digit : ℕ → Bool
is_hex_digit c = is_digit c || (leb 65 c && leb c 70) || (leb 97 c && leb c 102)

abbrev pub all_hex : Text → Bool
all_hex [] = true
all_hex (c ∷ s) = is_hex_digit c && all_hex s

-- `trim_matches` of both kinds of quotes.
abbrev drop_quotes : Text → Text
drop_quotes [] = []
drop_quotes (c ∷ s) = if (c == 34) || (c == 39) then drop_quotes s else c ∷ s

abbrev pub trim_quotes : Text → Text
trim_quotes s = reverse (drop_quotes (reverse (drop_quotes s)))

abbrev word_or_empty : Option Text → Text
word_or_empty none = []
word_or_empty (some word) = word

-- A reference of forty hexadecimal digits. Where all are such digits, the bytes are the characters.
abbrev pub is_pin : Text → Bool
is_pin reference = (length reference == 40) && all_hex reference

unfoldable pub is_pinned : Text → Bool
is_pinned line = elim (split_once 64 line) [
  | none ↦ false
  | some (before, after) ↦ is_pin (trim_quotes (word_or_empty (first_word after)))
]

pub data Unpinned : Type 0 where
  forbidden : FilePath → Unpinned
  unpinned_line : FilePath → Text → Unpinned

unfoldable pub unpinned_lines : FilePath → List Text → List Unpinned
unpinned_lines path [] = []
unpinned_lines path (line ∷ rest) =
    let more = unpinned_lines path rest in
    if contains_text (codes "uses:") line && not (is_pinned line)
    then unpinned_line path line ∷ more
    else more

abbrev pub is_workflow : FilePath → Bool
is_workflow path = has_extension (codes "yml") path || has_extension (codes "yaml") path

abbrev pub unpinned_in : FilePath → Text → List Unpinned
unpinned_in path source =
    (if contains_text (codes "pull_request_target") source then forbidden path ∷ [] else [])
    ++ unpinned_lines path (lines source)

unfoldable pub note_unpinned : FilePath → Option Text → List Unpinned → List Unpinned
note_unpinned path none found = found
note_unpinned path (some source) found =
    if is_workflow path then found ++ unpinned_in path source else found

pub data PinError : Type 0 where
  no_workflows : PinError
  not_visited : VisitError → PinError
  unpinned : List Unpinned → PinError

abbrev pub pins_of : Result VisitError (List Unpinned) → Result PinError (Unit {0})
pins_of (err e) = err (not_visited e)
pins_of (ok []) = ok tt
pins_of (ok (u ∷ us)) = err (unpinned (u ∷ us))

-- Over the directory of the workflows, if there is one.
unfoldable pub workflow_pins : (workflows : Option Node) → Result PinError (Unit {0})
workflow_pins none = err no_workflows
workflow_pins (some workflows) =
    pins_of (visit_files note_unpinned (codes ".github" ∷ codes "workflows" ∷ []) workflows [])
