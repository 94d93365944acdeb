-- ===== src/Tests/Written.antt =====
-- The capture of a launched program, written to a file and read back.
use mathlib.Core.List.Perm
use native.Mathlib.Decide.{ℕ_discrete}
use slice.Base.{ℕ, ◌≡◌, refl, sym, ap, true, Option, none, some, List, [], ok}
use slice.Cli.Write.ReadBack.{captured-from_bytes}
use slice.Cli.Write.{Files, Outcomes, complete, write_profile_atomically, write_bytes}
use slice.Core.Envelope.{Codec, IsFaithful, to_bytes, from_bytes, file_magic}
use slice.Core.Profile.{Profile}
use slice.Data.Text.{codes}
use slice.Tests.Captures.{in_order}
use slice.Tests.Sessions.{
  kernel, world, request, replayed, returned, border, delivered-IsConsistent, few_delivered,
}

profile_discrete : Discrete Profile
profile_discrete = hlevel ℕ_discrete

abbrev if_same : (q : Profile) {p : Profile} → Dec (p ≡ q) → Option (List ℕ)
if_same q (yes e) = some []
if_same q (no n) = none

if_same-some :
    (q : Profile) {p : Profile} (d : Dec (p ≡ q)) (json : List ℕ) → if_same q d ≡ some json → p ≡ q
if_same-some q (yes e) json h = e
if_same-some q (no n) json h = cc

if_same_self : (q : Profile) (d : Dec (q ≡ q)) → if_same q d ≡ some []
if_same_self q (yes e) = refl
if_same_self q (no n) = absurd (n refl)

-- Libraries that write one profile, as the empty text, and compress nothing.
abbrev only : Profile → Codec
only q = record {
  to_vec = λ p. if_same q (profile_discrete p q);
  from_slice = λ bytes. some q;
  encode_all = λ bytes. some bytes;
  decode_all = λ bytes. some bytes;
}

only-IsFaithful : (q : Profile) → IsFaithful (only q)
only-IsFaithful q = record {
  reads_json = λ p json h. ap some (sym (if_same-some q (profile_discrete p q) json h));
  decompresses = λ bytes compressed h. sym h;
}

only-writes : (q : Profile) → to_bytes (only q) q ≡ ok file_magic
unfolding to_bytes
only-writes q = rw (if_same_self q (profile_discrete q q)) refl

abbrev all_well : Outcomes
all_well = record { written = complete; renamed = true; removed = true }

abbrev empty_directory : Files
empty_directory name = none

writes_well :
    (q : Profile)
    → (write_profile_atomically
        (only q)
        all_well
        (some (codes "out"))
        (codes "42")
        q
        empty_directory).1
      ≡ ok tt
unfolding write_profile_atomically write_bytes
writes_well q = rw (only-writes q, write_profile_atomically) refl

captured-from_bytes_example :
    (bytes : List ℕ) × ((write_profile_atomically
          (only replayed)
          all_well
          (some (codes "out"))
          (codes "42")
          replayed
          empty_directory).0
        (codes "out")
      ≡ some bytes)
    × (from_bytes (only replayed) bytes ≡ ok replayed)
captured-from_bytes_example =
    captured-from_bytes (only replayed) (only-IsFaithful replayed) in_order (λ is. Perm.rfl)
      in_order (λ as'. Perm.rfl) (λ id. 10) border all_well (codes "out") (codes "42")
      empty_directory kernel world request replayed returned delivered-IsConsistent few_delivered
      (writes_well replayed)
