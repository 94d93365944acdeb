-- ===== src/RepoCheck/Finds.antt =====
-- tools/repo-check/src/main.rs: a check that collects what it finds wrong in each file, and accepts if
-- it has found nothing.
use mathlib.Core.List.{append_assoc, append-nil}
use slice.Base.{
  ◌≡◌, ◌↔◌, refl, sym, ap, ◌∙◌, true, Option, List, [], ◌∷◌, ◌++◌, All, All-map, Result, ok,
}
use slice.Data.Text.{Text}
use slice.RepoCheck.Visit.{
  FilePath, Entries, VisitError, folder, visit_files, files_of, are_readable, over_files,
  visit_files-readable,
}

append_empty {ℓ} : {A : Type ℓ} (xs ys : List A) → xs ++ ys ≡ [] → (xs ≡ []) × (ys ≡ [])
append_empty [] ys h = (refl, h)
append_empty (x ∷ xs) ys h = cc

-- A callback that appends what it finds in each file.
module _ {ℓ} {A : Type ℓ} (callback : FilePath → Option Text → List A → List A)
    (finds : FilePath → Option Text → List A)
    (appends : (path : FilePath) (text : Option Text) (found : List A)
      → callback path text found ≡ found ++ finds path text) where
  finds_all : List (FilePath × Option Text) → List A
  finds_all [] = []
  finds_all ((path, text) ∷ rest) = finds path text ++ finds_all rest

  over_files-finds :
      (fs : List (FilePath × Option Text)) (found : List A)
      → over_files callback fs found ≡ found ++ finds_all fs
  unfolding finds_all
  over_files-finds [] found = sym (append-nil found)
  over_files-finds ((path, text) ∷ fs) found =
      over_files-finds fs (callback path text found)
      ∙ ap (λ t. t ++ finds_all fs) (appends path text found)
      ∙ append_assoc found (finds path text) (finds_all fs)

  finds_none :
      (fs : List (FilePath × Option Text))
      → (finds_all fs ≡ []) ↔ All (λ (path, text). finds path text ≡ []) fs
  unfolding finds_all
  finds_none [] = (λ h. tt, λ h. refl)
  finds_none ((path, text) ∷ fs) = (
    λ h. let (a, b) = append_empty (finds path text) (finds_all fs) h in (a, (finds_none fs).0 b),
    λ (a, b). rw a ((finds_none fs).1 b),
  )

  -- If all files can be read, the check accepts exactly when every file is as it should be.
  pub accepts_iff {κ} :
      {E : Type κ} (IsGood : FilePath → Option Text → Type 0)
      → ((path : FilePath) (text : Option Text) → (finds path text ≡ []) ↔ IsGood path text)
      → (verdict : Result VisitError (List A) → Result E (Unit {0}))
      → ((found : List A) → (verdict (ok found) ≡ ok tt) ↔ (found ≡ []))
      → (root : FilePath) (entries : Entries) → are_readable entries ≡ true
      → (verdict (visit_files callback root (folder entries) []) ≡ ok tt)
        ↔ All (λ (path, text). IsGood path text) (files_of root entries)
  accepts_iff IsGood good verdict verdict-ok root entries readable =
      let fs = files_of root entries in
      let visited =
        visit_files-readable callback root entries [] readable ∙ ap ok (over_files-finds fs []) in
      let clean = finds_none fs in
      let accepts = verdict-ok (finds_all fs) in
      rw visited (
        λ h. All-map _ _ (λ (path, text) e. (good path text).0 e) fs (clean.0 (accepts.0 h)),
        λ a. accepts.1 (clean.1 (All-map _ _ (λ (path, text) e. (good path text).1 e) fs a)),
      )
