-- ===== src/Cli/Write.antt =====
-- crates/slice-cli/src/main.rs: `write_profile_atomically`, on the files of one directory. What the
-- operating system makes of each call is an input.
pub mod Atomic
pub mod ReadBack
use slice.Base.{
  ℕ, Bool, true, false, Option, none, some, List, [], ◌∷◌, ◌++◌, if◌then◌else◌, Result, ok, err,
}
use slice.Core.Envelope.{Codec, ProfileError, to_bytes}
use slice.Core.Profile.{Profile}
use slice.Data.Text.{Text, codes, text_eq}

-- The directory of the output: the contents of each file by its name.
abbrev pub Files : Type 0
Files = Text → Option (List ℕ)

abbrev pub put : Text → Option (List ℕ) → Files → Files
put name contents files other = if text_eq other name then contents else files other

-- How `fs::write` ends; a write that fails leaves something, or nothing, under the name.
pub data Written : Type 0 where
  complete : Written
  failed : (left : Option (List ℕ)) → Written

pub record Outcomes : Type 0 where
  pub written : Written
  pub renamed : Bool
  pub removed : Bool

pub data WriteError : Type 0 where
  no_file_name : WriteError
  profile_error : ProfileError → WriteError
  write_failed rename_failed : WriteError

-- The name of the temporary file; the number of the process is given as text.
abbrev pub temporary_name : (file_name process_id : Text) → Text
temporary_name file_name process_id = codes "." ++ file_name ++ codes ".tmp-" ++ process_id

-- The error is returned, whether the temporary file can be removed or not.
abbrev pub give_up : Outcomes → Text → WriteError → Files → Files × Result WriteError (Unit {0})
give_up o temporary e files = (if o.removed then put temporary none files else files, err e)

-- The bytes are written under the temporary name, which is then changed to that of the output.
unfoldable pub write_bytes :
    Outcomes → (temporary file_name : Text) → List ℕ → Files → Files × Result WriteError (Unit {0})
write_bytes o temporary file_name bytes files = elim o.written [
  | failed left ↦ give_up o temporary write_failed (put temporary left files)
  | complete ↦
      if o.renamed
      then (put temporary none (put file_name (some bytes) files), ok tt)
      else give_up o temporary rename_failed (put temporary (some bytes) files)
]

unfoldable pub write_profile_atomically :
    Codec
    → Outcomes
    → (output : Option Text) (process_id : Text) → Profile
    → Files
    → Files × Result WriteError (Unit {0})
write_profile_atomically codec o none process_id p files = (files, err no_file_name)
write_profile_atomically codec o (some file_name) process_id p files =
    let temporary = temporary_name file_name process_id in
    elim (to_bytes codec p) [
      | err e ↦ give_up o temporary (profile_error e) files
      | ok bytes ↦ write_bytes o temporary file_name bytes files
    ]
