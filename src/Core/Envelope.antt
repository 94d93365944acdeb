-- ===== src/Core/Envelope.antt =====
-- crates/slice-core/src/lib.rs: `Profile::to_bytes`, `Profile::from_bytes` and `capture_bounds`.
-- The JSON of serde_json and the compression of zstd are parameters; bytes are numbers.
pub mod Laws
use slice.Base.{
  ℕ, ◌≡◌, Bool, true, false, Option, none, some, List, [], ◌∷◌, ◌++◌, ◌==◌, leb, if◌then◌else◌, min,
  max, Result, ok, err, guard, or_fail, map_err, ◌>>=◌, ◌>>◌,
}
use slice.Core.Profile.{Profile, Invocation, TimeRange}
use slice.Core.Validate.{ProfileValidationError, validate}
use slice.Data.Text.{Text, codes, strip_prefix}

-- The two libraries: each operation succeeds with a result or fails.
pub record Codec : Type 0 where
  pub to_vec : Profile → Option (List ℕ)
  pub from_slice : List ℕ → Option Profile
  pub encode_all : List ℕ → Option (List ℕ)
  pub decode_all : List ℕ → Option (List ℕ)

-- What the libraries document: what was written is read back.
pub record IsFaithful (codec : Codec) : Type 0 where
  pub reads_json :
      (p : Profile) (json : List ℕ) → codec.to_vec p ≡ some json → codec.from_slice json ≡ some p
  pub decompresses :
      (bytes compressed : List ℕ)
      → codec.encode_all bytes ≡ some compressed
      → codec.decode_all compressed ≡ some bytes

pub data ProfileError : Type 0 where
  invalid_magic : ProfileError
  unsupported_version : ℕ → ProfileError
  io : ProfileError
  json : ProfileError
  invalid_profile : ProfileValidationError → ProfileError

-- `b"SLICE\0\x01\n"`.
abbrev pub file_magic : List ℕ
file_magic = 83 ∷ 76 ∷ 73 ∷ 67 ∷ 69 ∷ 0 ∷ 1 ∷ 10 ∷ []

unfoldable pub to_bytes : Codec → Profile → Result ProfileError (List ℕ)
to_bytes codec p = do
  text ← or_fail (codec.to_vec p) json
  compressed ← or_fail (codec.encode_all text) io
  ok (file_magic ++ compressed)

-- The steps of `from_bytes`, from the last one to the first.
unfoldable pub accept : Profile → Result ProfileError Profile
accept p = do
  guard (p.format_version == 1) (unsupported_version p.format_version)
  map_err invalid_profile (validate p)
  ok p

unfoldable pub parse : Codec → List ℕ → Result ProfileError Profile
parse codec text = do p ← or_fail (codec.from_slice text) json; accept p

unfoldable pub decode : Codec → List ℕ → Result ProfileError Profile
decode codec payload = do text ← or_fail (codec.decode_all payload) io; parse codec text

unfoldable pub from_bytes : Codec → List ℕ → Result ProfileError Profile
from_bytes codec bytes = do
  payload ← or_fail (strip_prefix file_magic bytes) invalid_magic
  decode codec payload

-- The loop of `capture_bounds` over the invocations after the first.
abbrev pub widen : TimeRange → List Invocation → TimeRange
widen bounds [] = bounds
widen bounds (i ∷ is) =
    widen (record { from_ns = min bounds.from_ns i.start_ns; to_ns = max bounds.to_ns i.end_ns }) is

unfoldable pub capture_bounds : List Invocation → Option TimeRange
capture_bounds [] = none
capture_bounds (i ∷ is) = some (widen (record { from_ns = i.start_ns; to_ns = i.end_ns }) is)
