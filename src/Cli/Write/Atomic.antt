-- ===== src/Cli/Write/Atomic.antt =====
-- The output is replaced as a whole or not at all.
use mathlib.Core.Bool.{false≢true}
use slice.Base.{
  ℕ, ◌≡◌, refl, ap, true, false, Option, none, some, List, ◌++◌, length, length-append, Bool-cases,
  Result-cases, inl, inr, ◌⊎◌, Result, ok, err, arith,
}
use slice.Cli.Write.{
  Files, put, Outcomes, Written, complete, failed, WriteError, temporary_name, give_up, write_bytes,
  write_profile_atomically, write_failed, rename_failed, profile_error,
}
use slice.Core.Envelope.{Codec, to_bytes}
use slice.Core.Profile.{Profile}
use slice.Data.Text.{Text, codes, text_eq, text_eq_self, text_eq→≡}

-- The temporary name is longer than the other.
temporary_name-ne : (name process_id : Text) → text_eq name (temporary_name name process_id) ≡ false
temporary_name-ne name process_id =
    elim (Bool-cases (text_eq name (temporary_name name process_id))) [
      | inl e ↦
          let same = ap length (text_eq→≡ name _ e) in
          let a = length-append (codes "." ++ name ++ codes ".tmp-") process_id in
          let b = length-append (codes "." ++ name) (codes ".tmp-") in
          let c = length-append (codes ".") name in absurd (omega (arith, same, a, b, c))
      | inr e ↦ e
    ]

Written-cases : (w : Written) → ((left : Option (List ℕ)) × (w ≡ failed left)) ⊎ (w ≡ complete)
Written-cases complete = inr refl
Written-cases (failed left) = inl (left, refl)

-- What the directory holds afterwards, and what is returned.
pub record IsAtomic (codec : Codec) (o : Outcomes) (name temporary : Text) (p : Profile)
    (before : Files) (after : Files × Result WriteError (Unit {0})) : Type 0 where
  pub others :
      (other : Text)
      → text_eq other name ≡ false
      → text_eq other temporary ≡ false
      → after.0 other ≡ before other
  pub replaced :
      after.1 ≡ ok tt
      → (bytes : List ℕ) × (to_bytes codec p ≡ ok bytes)
        × (after.0 name ≡ some bytes)
        × (after.0 temporary ≡ none)
  pub kept : (e : WriteError) → after.1 ≡ err e → after.0 name ≡ before name
  pub cleared : (e : WriteError) → after.1 ≡ err e → o.removed ≡ true → after.0 temporary ≡ none

module _ (codec : Codec) (o : Outcomes) (name temporary : Text) (p : Profile)
    (ne : text_eq name temporary ≡ false) where
  -- After an error only the temporary file may have changed.
  give_up-IsAtomic :
      (e : WriteError) (before files : Files)
      → ((other : Text) → text_eq other temporary ≡ false → files other ≡ before other)
      → IsAtomic codec o name temporary p before (give_up o temporary e files)
  give_up-IsAtomic e before files same = elim (Bool-cases o.removed) [
    | inl r ↦ rw r (record {
      others = λ other a b. rw b (same other b);
      replaced = λ h. cc;
      kept = λ e' h. rw ne (same name ne);
      cleared = λ e' h g. rw (text_eq_self temporary) refl;
    })
    | inr r ↦ rw r (record {
      others = λ other a b. same other b;
      replaced = λ h. cc;
      kept = λ e' h. same name ne;
      cleared = λ e' h g. absurd (false≢true g);
    })
  ]

  put_temporary :
      (contents : Option (List ℕ)) (files : Files) (other : Text)
      → text_eq other temporary ≡ false
      → put temporary contents files other ≡ files other
  put_temporary contents files other h = rw h refl

  write_bytes-IsAtomic :
      (bytes : List ℕ) (files : Files)
      → to_bytes codec p ≡ ok bytes
      → IsAtomic codec o name temporary p files (write_bytes o temporary name bytes files)
  unfolding write_bytes
  write_bytes-IsAtomic bytes files encoded = elim (Written-cases o.written) [
    | inl (left, e) ↦
        simp (e, write_bytes)
          (give_up-IsAtomic write_failed files (put temporary left files)
            (put_temporary left files))
    | inr e ↦ elim (Bool-cases o.renamed) [
      | inl r ↦
          simp (e, r, write_bytes)
            (record {
              others = λ other a b. rw (b, a) refl;
              replaced = λ h. (
                bytes,
                encoded,
                rw (ne, text_eq_self name) refl,
                rw (text_eq_self temporary) refl,
              );
              kept = λ e' h. cc;
              cleared = λ e' h g. cc;
            })
      | inr r ↦
          simp (e, r, write_bytes)
            (give_up-IsAtomic rename_failed files (put temporary (some bytes) files)
              (put_temporary (some bytes) files))
    ]
  ]

-- Whatever the operating system makes of the calls: if no error is returned, the output holds the
-- bytes of the profile and the temporary file is gone; after an error the output holds what it held
-- before, and the temporary file is gone if it could be removed; no other file changes.
pub write_profile_atomically-IsAtomic :
    (codec : Codec) (o : Outcomes) (name process_id : Text) (p : Profile) (files : Files)
    → IsAtomic codec o name
        (temporary_name name process_id)
        p
        files
        (write_profile_atomically codec o (some name) process_id p files)
unfolding write_profile_atomically
write_profile_atomically-IsAtomic codec o name process_id p files =
    let temporary = temporary_name name process_id in
    let ne = temporary_name-ne name process_id in
    elim (Result-cases (to_bytes codec p)) [
      | inl (bytes, h) ↦
          rw (h, write_profile_atomically)
            (write_bytes-IsAtomic codec o name temporary p ne bytes files h)
      | inr (e, h) ↦
          rw (h, write_profile_atomically)
            (give_up-IsAtomic codec o name temporary p ne (profile_error e) files files
              (λ other b. refl))
    ]
