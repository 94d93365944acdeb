-- ===== src/RepoCheck/Links/Exact.antt =====
-- tools/repo-check/src/main.rs: what `markdown_links` accepts.
use mathlib.Core.Bool.{false≢true}
use mathlib.Core.List.{append-nil}
use slice.Data.Numerals.{starts_with}
use slice.RepoCheck.Links.Reading.{IsReading, targets-IsReading}
use slice.Base.{
  suc, ◌≡◌, ◌↔◌, refl, sym, ◌∙◌, arith, Bool, true, false, not, ◌&&◌, Option, none, some, List, [],
  ◌∷◌, ◌++◌, All, length, if◌then◌else◌, Bool-cases, inl, inr, ok,
}
use slice.Data.Text.{Text, codes}
use slice.RepoCheck.Finds.{accepts_iff}
use slice.RepoCheck.Links.{
  targets, is_local, parent, links_of, broken_links, note_broken, markdown_links,
}
use slice.RepoCheck.Sources.{has_extension, is_under}
use slice.RepoCheck.Visit.{FilePath, Entries, folder, files_of, are_readable}

-- Is the file one of Markdown outside `.git`?
abbrev is_document : FilePath → Bool
is_document path = has_extension (codes "md") path && not (is_under (codes ".git" ∷ []) path)

-- A target that begins in one of these ways is not looked for beside the document.
abbrev elsewhere : List Text
elsewhere = codes "http://" ∷ codes "https://" ∷ codes "mailto:" ∷ codes "/" ∷ []

-- A target is local if it is not empty and not elsewhere.
abbrev IsLocal : Text → Type 0
IsLocal [] = ⊥
IsLocal (c ∷ s) = All (λ start. starts_with start (c ∷ s) ≡ false) elsewhere

none_of :
    (a b m r : Bool)
    → ((not a && not b && not m && not r) ≡ true)
      ↔ ((a ≡ false) × ((b ≡ false) × ((m ≡ false) × ((r ≡ false) × Unit {0}))))
none_of false false false false = (λ h. (refl, (refl, (refl, (refl, tt)))), λ h. refl)
none_of true b m r = (λ h. cc, λ h. let no = h.0 in cc (no))
none_of false true m r = (λ h. cc, λ h. let no = h.1.0 in cc (no))
none_of false false true r = (λ h. cc, λ h. let no = h.1.1.0 in cc (no))
none_of false false false true = (λ h. cc, λ h. let no = h.1.1.1.0 in cc (no))

is_local-IsLocal : (target : Text) → (is_local target ≡ true) ↔ IsLocal target
is_local-IsLocal [] = (λ h. cc, λ h. absurd h)
is_local-IsLocal (c ∷ s) =
    let a = starts_with (codes "http://") (c ∷ s) in
    let b = starts_with (codes "https://") (c ∷ s) in
    let m = starts_with (codes "mailto:") (c ∷ s) in
    let r = starts_with (codes "/") (c ∷ s) in none_of a b m r

links_of-ok : (found : List (FilePath × Text)) → (links_of (ok found) ≡ ok tt) ↔ (found ≡ [])
links_of-ok [] = (λ h. refl, λ h. refl)
links_of-ok (link ∷ links) = (λ h. cc, λ h. cc)

module _ (exists : FilePath → Text → Bool) where
  -- The text of a document reads as targets, of which every local one exists beside it.
  abbrev pub IsLinked : FilePath → Option Text → Type 0
  IsLinked path none = Unit
  IsLinked path (some source) =
      has_extension (codes "md") path ≡ true
      → is_under (codes ".git" ∷ []) path ≡ false
      → IsReading source (targets (suc (length source)) source)
        × All (λ target. IsLocal target → exists (parent path) target ≡ true)
            (targets (suc (length source)) source)

  broken_of : FilePath → Option Text → List (FilePath × Text)
  broken_of path none = []
  broken_of path (some source) =
      if is_document path
      then broken_links exists path (targets (suc (length source)) source)
      else []

  note_broken-appends :
      (path : FilePath) (text : Option Text) (found : List (FilePath × Text))
      → note_broken exists path text found ≡ found ++ broken_of path text
  unfolding note_broken broken_of
  note_broken-appends path none found = sym (append-nil found)
  note_broken-appends path (some source) found = elim (Bool-cases (is_document path)) [
    | inl e ↦ simp e refl
    | inr e ↦ simp e (sym (append-nil found))
  ]

  broken_links-none :
      (path : FilePath) (ts : List Text)
      → (broken_links exists path ts ≡ [])
        ↔ All (λ target. IsLocal target → exists (parent path) target ≡ true) ts
  unfolding broken_links
  broken_links-none path [] = (λ h. tt, λ h. refl)
  broken_links-none path (target ∷ ts) =
      let rest = broken_links-none path ts in
      let at = is_local-IsLocal target in
      elim (Bool-cases (is_local target)) [
        | inl e ↦ elim (Bool-cases (exists (parent path) target)) [
          | inl e' ↦ simp (e, e') (λ h. ((λ u. refl), rest.0 h), λ a. rest.1 a.1)
          | inr e' ↦ simp (e, e') (λ h. cc, λ a. let bad = a.0 (at.0 e) in cc (bad))
        ]
        | inr e ↦
            simp e (λ h. ((λ u. absurd (false≢true (sym e ∙ at.1 u))), rest.0 h), λ a. rest.1 a.1)
      ]

  broken_of-none :
      (path : FilePath) (text : Option Text) → (broken_of path text ≡ []) ↔ IsLinked path text
  unfolding broken_of
  broken_of-none path none = (λ h. tt, λ h. refl)
  broken_of-none path (some source) =
      let links = broken_links-none path (targets (suc (length source)) source) in
      let read = targets-IsReading (suc (length source)) source (omega arith) in
      elim (Bool-cases (has_extension (codes "md") path)) [
        | inr e ↦ rw e (λ h k. cc, λ a. refl)
        | inl e ↦ elim (Bool-cases (is_under (codes ".git" ∷ []) path)) [
          | inl e' ↦ rw (e, e') (λ h k l. cc, λ a. refl)
          | inr e' ↦ rw (e, e') (λ h k l. (read, links.0 h), λ a. links.1 (a refl refl).1)
        ]
      ]

  -- If the whole repository can be read, markdown_links accepts exactly when in every file that ends
  -- in `.md`, is not below `.git` and is text each target that is local exists beside the file. The
  -- targets are what the text reads as: after each `](` up to the next `)`, without the space, angle
  -- brackets and fragment around it; local is what is not empty and begins with none of `http://`,
  -- `https://`, `mailto:` and `/`.
  pub markdown_links_iff :
      (repository : Entries)
      → are_readable repository ≡ true
      → (markdown_links exists (folder repository) ≡ ok tt)
        ↔ All (λ (path, text). IsLinked path text) (files_of [] repository)
  unfolding markdown_links
  markdown_links_iff repository readable =
      accepts_iff (note_broken exists) broken_of note_broken-appends IsLinked broken_of-none
        links_of links_of-ok [] repository readable
