-- ===== src/RepoCheck/Boundary.antt =====
-- tools/repo-check/src/main.rs: what `unsafe_boundary` and `workflow_pins` accept.
use mathlib.Core.Bool.{false≢true}
use mathlib.Core.List.{append-nil}
use slice.Base.{
  ◌≡◌, ◌↔◌, refl, sym, ◌∙◌, ◌||◌, true, false, ◌&&◌, Option, none, some, List, [], ◌∷◌, ◌++◌, All,
  if◌then◌else◌, Bool-cases, inl, inr, ok,
}
use slice.Data.Numerals.{contains_text, lines}
use slice.Data.Text.{Text, codes}
use slice.RepoCheck.Finds.{accepts_iff}
use slice.RepoCheck.Pins.{
  note_unpinned, is_workflow, unpinned_in, pins_of, workflow_pins, Unpinned, unpinned_lines,
  is_pinned,
}
use slice.RepoCheck.Pins.Line.{IsPinned, is_pinned-IsPinned}
use slice.RepoCheck.Sources.Word.{has_word, mentions_unsafe-has_word}
use slice.RepoCheck.Sources.{
  has_extension, is_under, note_unsafe, is_checked, mentions_unsafe, unsafe_boundary, boundary_of,
}
use slice.RepoCheck.Visit.{FilePath, Entries, folder, files_of, are_readable}

unsafe_in : FilePath → Option Text → List FilePath
unsafe_in path text = if is_checked path && mentions_unsafe text then path ∷ [] else []

note_unsafe-appends :
    (path : FilePath) (text : Option Text) (found : List FilePath)
    → note_unsafe path text found ≡ found ++ unsafe_in path text
unfolding note_unsafe unsafe_in
note_unsafe-appends path text found = elim (Bool-cases (is_checked path && mentions_unsafe text)) [
  | inl e ↦ simp e refl
  | inr e ↦ simp e (sym (append-nil found))
]

-- A file of Rust that is not in `crates/slice-ebpf` does without the word `unsafe`, if it is text.
abbrev pub IsSafeFile : FilePath → Option Text → Type 0
IsSafeFile path none = Unit
IsSafeFile path (some source) =
    has_extension (codes "rs") path ≡ true
    → is_under (codes "crates" ∷ codes "slice-ebpf" ∷ []) path ≡ false
    → has_word (codes "unsafe") false source ≡ false

unsafe_in-none :
    (path : FilePath) (text : Option Text) → (unsafe_in path text ≡ []) ↔ IsSafeFile path text
unfolding unsafe_in
unsafe_in-none path none = elim (Bool-cases (is_checked path)) [
  | inl e ↦ rw e (λ h. tt, λ h. refl)
  | inr e ↦ rw e (λ h. tt, λ h. refl)
]
unsafe_in-none path (some source) =
    let word = mentions_unsafe-has_word source in
    elim (Bool-cases (has_extension (codes "rs") path)) [
      | inr e ↦ rw e (λ h k. cc, λ h. refl)
      | inl e ↦ elim (Bool-cases (is_under (codes "crates" ∷ codes "slice-ebpf" ∷ []) path)) [
        | inl e' ↦ rw (e, e') (λ h k l. cc, λ h. refl)
        | inr e' ↦ elim (Bool-cases (has_word (codes "unsafe") false source)) [
          | inl found ↦ rw (e, e', word, found) (λ h. cc, λ h. let bad = h refl refl in cc (bad))
          | inr clean ↦ rw (e, e', word, clean) (λ h k l. refl, λ h. refl)
        ]
      ]
    ]

boundary_of-ok : (found : List FilePath) → (boundary_of (ok found) ≡ ok tt) ↔ (found ≡ [])
boundary_of-ok [] = (λ h. refl, λ h. refl)
boundary_of-ok (path ∷ paths) = (λ h. cc, λ h. cc)

-- If all of `crates` can be read, the boundary is accepted exactly when no file that ends in `.rs`, is
-- not below `crates/slice-ebpf` and is text has `unsafe` anywhere as a whole word, without a letter, a
-- digit or an underscore before or behind it.
pub unsafe_boundary_iff :
    (crates : Entries)
    → are_readable crates ≡ true
    → (unsafe_boundary (folder crates) ≡ ok tt)
      ↔ All (λ (path, text). IsSafeFile path text) (files_of (codes "crates" ∷ []) crates)
unfolding unsafe_boundary
unsafe_boundary_iff crates readable =
    accepts_iff note_unsafe unsafe_in note_unsafe-appends IsSafeFile unsafe_in-none boundary_of
      boundary_of-ok (codes "crates" ∷ []) crates readable

unpinned_of : FilePath → Option Text → List Unpinned
unpinned_of path none = []
unpinned_of path (some source) = if is_workflow path then unpinned_in path source else []

note_unpinned-appends :
    (path : FilePath) (text : Option Text) (found : List Unpinned)
    → note_unpinned path text found ≡ found ++ unpinned_of path text
unfolding note_unpinned unpinned_of
note_unpinned-appends path none found = sym (append-nil found)
note_unpinned-appends path (some source) found = elim (Bool-cases (is_workflow path)) [
  | inl e ↦ simp e refl
  | inr e ↦ simp e (sym (append-nil found))
]

-- A workflow does without `pull_request_target`, and every line with `uses:` has a pin.
abbrev pub IsPinnedFile : FilePath → Option Text → Type 0
IsPinnedFile path none = Unit
IsPinnedFile path (some source) =
    (has_extension (codes "yml") path || has_extension (codes "yaml") path) ≡ true
    → (contains_text (codes "pull_request_target") source ≡ false)
      × All (λ line. contains_text (codes "uses:") line ≡ true → IsPinned line) (lines source)

unpinned_lines-none :
    (path : FilePath) (ls : List Text)
    → (unpinned_lines path ls ≡ [])
      ↔ All (λ line. contains_text (codes "uses:") line ≡ true → IsPinned line) ls
unfolding unpinned_lines
unpinned_lines-none path [] = (λ h. tt, λ h. refl)
unpinned_lines-none path (line ∷ ls) =
    let rest = unpinned_lines-none path ls in
    let pinned = is_pinned-IsPinned line in
    elim (Bool-cases (contains_text (codes "uses:") line)) [
      | inl e ↦ elim (Bool-cases (is_pinned line)) [
        | inl e' ↦ simp (e, e') (λ h. ((λ u. pinned.0 e'), rest.0 h), λ a. rest.1 a.1)
        | inr e' ↦
            simp (e, e')
              (λ h. cc, λ a. let bad = pinned.1 (a.0 refl) in absurd (false≢true (sym e' ∙ bad)))
      ]
      | inr e ↦ simp e (λ h. ((λ u. cc), rest.0 h), λ a. rest.1 a.1)
    ]

unpinned_of-none :
    (path : FilePath) (text : Option Text) → (unpinned_of path text ≡ []) ↔ IsPinnedFile path text
unfolding unpinned_of
unpinned_of-none path none = (λ h. tt, λ h. refl)
unpinned_of-none path (some source) =
    let ls = unpinned_lines-none path (lines source) in
    elim (Bool-cases (is_workflow path)) [
      | inl e ↦ elim (Bool-cases (contains_text (codes "pull_request_target") source)) [
        | inl e' ↦ simp (e, e') (λ h. cc, λ a. let bad = (a refl).0 in cc (bad))
        | inr e' ↦ simp (e, e') (λ h w. (refl, ls.0 h), λ a. ls.1 (a refl).1)
      ]
      | inr e ↦ simp e (λ h w. cc, λ a. refl)
    ]

pins_of-ok : (found : List Unpinned) → (pins_of (ok found) ≡ ok tt) ↔ (found ≡ [])
pins_of-ok [] = (λ h. refl, λ h. refl)
pins_of-ok (u ∷ us) = (λ h. cc, λ h. cc)

-- If all workflows can be read, they are accepted exactly when each that is text does without
-- `pull_request_target` and in every line with `uses:` has a reference of forty hexadecimal digits
-- behind the first `@`.
pub workflow_pins_iff :
    (workflows : Entries)
    → are_readable workflows ≡ true
    → (workflow_pins (some (folder workflows)) ≡ ok tt)
      ↔ All
          (λ (path, text). IsPinnedFile path text)
          (files_of (codes ".github" ∷ codes "workflows" ∷ []) workflows)
unfolding workflow_pins
workflow_pins_iff workflows readable =
    accepts_iff note_unpinned unpinned_of note_unpinned-appends IsPinnedFile unpinned_of-none
      pins_of pins_of-ok (codes ".github" ∷ codes "workflows" ∷ []) workflows readable
