-- ===== src/RepoCheck/Visit.antt =====
-- tools/repo-check/src/main.rs: `visit_files`, and the order in which it meets the files.
use mathlib.Core.Bool.{false≢true}
use slice.Base.{
  ◌≡◌, refl, sym, ap, &&-eq-true, ◌∙◌, Bool, true, false, ◌&&◌, Option, List, [], ◌∷◌, ◌++◌, Result,
  ok, err, ◌>>=◌,
}
use slice.Data.Text.{Text}

abbrev pub FilePath : Type 0
FilePath = List Text

-- A file with its text, if it can be read as text; a directory; a directory that cannot be read. An
-- entry may be broken too.
mutual
  pub data Node : Type 0 where
    file : (text : Option Text) → Node
    folder : Entries → Node
    unreadable : Node

  pub data Entries : Type 0 where
    done broken : Entries
    entry : (name : Text) → Node → Entries → Entries

pub data VisitError : Type 0 where
  reading : FilePath → VisitError
  reading_entry : VisitError

module _ {ℓ} {S : Type ℓ} (callback : FilePath → Option Text → S → S) where
  unfoldable mutual
    pub visit_node : FilePath → Node → S → Result VisitError S
    visit_node path (file text) s = ok (callback path text s)
    visit_node path (folder entries) s = visit_entries path entries s
    visit_node path unreadable s = err (reading path)

    pub visit_entries : FilePath → Entries → S → Result VisitError S
    visit_entries path done s = ok s
    visit_entries path broken s = err reading_entry
    visit_entries path (entry name node rest) s =
        visit_node (path ++ name ∷ []) node s >>= λ s'. visit_entries path rest s'

  -- `visit_files` begins with a directory.
  unfoldable pub visit_files : FilePath → Node → S → Result VisitError S
  visit_files path (file text) s = err (reading path)
  visit_files path (folder entries) s = visit_entries path entries s
  visit_files path unreadable s = err (reading path)

-- The files below a node, and whether all directories and entries can be read.
unfoldable mutual
  pub files : FilePath → Node → List (FilePath × Option Text)
  files path (file text) = (path, text) ∷ []
  files path (folder entries) = files_of path entries
  files path unreadable = []

  pub files_of : FilePath → Entries → List (FilePath × Option Text)
  files_of path done = []
  files_of path broken = []
  files_of path (entry name node rest) = files (path ++ name ∷ []) node ++ files_of path rest

unfoldable mutual
  pub is_readable : Node → Bool
  is_readable (file text) = true
  is_readable (folder entries) = are_readable entries
  is_readable unreadable = false

  pub are_readable : Entries → Bool
  are_readable done = true
  are_readable broken = false
  are_readable (entry name node rest) = is_readable node && are_readable rest

-- The callback on one file after the other.
abbrev pub over_files {ℓ} :
    {S : Type ℓ} → (FilePath → Option Text → S → S) → List (FilePath × Option Text) → S → S
over_files callback [] s = s
over_files callback ((path, text) ∷ rest) s = over_files callback rest (callback path text s)

module _ {ℓ} {S : Type ℓ} (callback : FilePath → Option Text → S → S) where
  over_files-append :
      (xs ys : List (FilePath × Option Text)) (s : S)
      → over_files callback (xs ++ ys) s ≡ over_files callback ys (over_files callback xs s)
  over_files-append [] ys s = refl
  over_files-append ((path, text) ∷ xs) ys s = over_files-append xs ys (callback path text s)

  mutual
    unfolding visit_node visit_entries files files_of is_readable are_readable

    pub visit_node-readable :
        (path : FilePath) (node : Node) (s : S)
        → is_readable node ≡ true
        → visit_node callback path node s ≡ ok (over_files callback (files path node) s)
    visit_node-readable path (file text) s h = refl
    visit_node-readable path (folder entries) s h = visit_entries-readable path entries s h
    visit_node-readable path unreadable s h = absurd (false≢true h)

    visit_entries-readable :
        (path : FilePath) (entries : Entries) (s : S)
        → are_readable entries ≡ true
        → visit_entries callback path entries s ≡ ok (over_files callback (files_of path entries) s)
    visit_entries-readable path done s h = refl
    visit_entries-readable path broken s h = absurd (false≢true h)
    visit_entries-readable path (entry name node rest) s h =
        let (here, later) = &&-eq-true (is_readable node) (are_readable rest) h in
        let first = visit_node-readable (path ++ name ∷ []) node s here in
        let s' = over_files callback (files (path ++ name ∷ []) node) s in
        rw first (
          visit_entries-readable path rest s' later
          ∙ ap ok (sym (over_files-append (files (path ++ name ∷ []) node) (files_of path rest) s)))

  pub visit_files-readable :
      (path : FilePath) (entries : Entries) (s : S)
      → are_readable entries ≡ true
      → visit_files callback path (folder entries) s
        ≡ ok (over_files callback (files_of path entries) s)
  unfolding visit_files
  visit_files-readable path entries s h = visit_entries-readable path entries s h
