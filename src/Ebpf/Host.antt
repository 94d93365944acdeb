-- ===== src/Ebpf/Host.antt =====
-- crates/slice-ebpf/src/lib.rs: what the adapter reads of the host and of its own BPF maps. The
-- contents of a file are `none` where it cannot be read.
pub mod Cpus
use mathlib.Core.List.{reverse}
use slice.Base.{
  ℕ, suc, zero, ◌+◌, ◌*◌, ◌-◌, ◌/◌, ◌%◌, ◌^◌, Bool, true, false, not, ◌&&◌, Option, none, some,
  List, [], ◌∷◌, ◌++◌, map, length, select, take, ltb, leb, ◌==◌, if◌then◌else◌, Result, ok, err,
  or_fail, guard, ◌>>=◌, ◌>>◌,
}
use slice.Capture.{ProcessIdentity}
use slice.Data.Numerals.{
  parse_unsigned, is_digit, lines, trim, split, split_once, is_whitespace, contains_text,
}
use slice.Data.Text.{Text, codes, strip_prefix}
use slice.Data.Words.{u32_max, u64_max}
use slice.Ebpf.Events.{from_bytes}

-- `find_map(|line| line.strip_prefix(prefix))`.
unfoldable pub find_prefixed : Text → List Text → Option Text
find_prefixed prefix [] = none
find_prefixed prefix (line ∷ rest) = elim (strip_prefix prefix line) [
  | none ↦ find_prefixed prefix rest
  | some value ↦ some value
]

-- `split_whitespace().next()`: the first run of characters that are no whitespace.
abbrev until_whitespace : Text → Text
until_whitespace [] = []
until_whitespace (c ∷ s) = if is_whitespace c then [] else c ∷ until_whitespace s

unfoldable pub first_word : Text → Option Text
first_word [] = none
first_word (c ∷ s) = if is_whitespace c then first_word s else some (c ∷ until_whitespace s)

abbrev then_try {ℓ} : {A : Type ℓ} → Option A → Option A → Option A
then_try none other = other
then_try (some x) other = some x

abbrev bind {ℓ κ} : {A : Type ℓ} {B : Type κ} → Option A → (A → Option B) → Option B
bind none f = none
bind (some x) f = f x

unfoldable pub parse_kernel_tgid : Text → Option ℕ
parse_kernel_tgid status =
    then_try
      (bind (bind (find_prefixed (codes "NSpid:") (lines status)) first_word)
        (parse_unsigned u32_max))
      (bind (find_prefixed (codes "Tgid:") (lines status))
        λ value. parse_unsigned u32_max (trim value))

pub data IdentityError : Type 0 where
  pid_zero unreadable_status no_identity : IdentityError

unfoldable pub resolve_process_identity :
    (pid : ℕ) (status : Option Text) → Result IdentityError ProcessIdentity
resolve_process_identity pid status = do
  guard (not (pid == 0)) pid_zero
  text ← or_fail status unreadable_status
  kernel_tgid ← or_fail (parse_kernel_tgid text) no_identity
  ok (record { pid = pid; kernel_tgid = kernel_tgid })

-- A hexadecimal digit of either case.
abbrev hex_value : ℕ → Option ℕ
hex_value c =
    if is_digit c
    then some (c - 48)
    else if leb 97 c && leb c 102
    then some (c - 87)
    else if leb 65 c && leb c 70
    then some (c - 55)
    else none

unfoldable pub parse_hex_digits : (value : ℕ) → Text → Option ℕ
parse_hex_digits value [] = some value
parse_hex_digits value (c ∷ s) = elim (hex_value c) [
  | none ↦ none
  | some digit ↦
      let next = value * 16 + digit in
      let rest = parse_hex_digits next s in if leb next u64_max then rest else none
]

-- `u64::from_str_radix(text, 16)`.
unfoldable pub parse_hex : Text → Option ℕ
parse_hex [] = none
parse_hex (c ∷ []) = if c == 43 then none else parse_hex_digits 0 (c ∷ [])
parse_hex (c ∷ d ∷ s) =
    if c == 43 then parse_hex_digits 0 (d ∷ s) else parse_hex_digits 0 (c ∷ d ∷ s)

-- Is the bit of a capability set in the status of the process?
unfoldable pub effective_capability : Option Text → ℕ → Bool
effective_capability none bit = false
effective_capability (some status) bit =
    elim (bind (find_prefixed (codes "CapEff:\t") (lines status)) λ value. parse_hex (trim value)) [
      | none ↦ false
      | some value ↦ (value / 2 ^ bit) % 2 == 1
    ]

-- The first eight and the first four bytes of what a lookup in a BPF map has found.
unfoldable pub read_indexed_counter : Option (List ℕ) → ℕ
read_indexed_counter none = 0
read_indexed_counter (some bytes) = if leb 8 (length bytes) then from_bytes (take 8 bytes) else 0

unfoldable pub read_u32 : Option (List ℕ) → Option ℕ
read_u32 none = none
read_u32 (some bytes) = if leb 4 (length bytes) then some (from_bytes (take 4 bytes)) else none

pub data EmptyCapture : Type 0 where
  never_fired all_rejected none_delivered : EmptyCapture

unfoldable pub diagnose_empty_capture : (raw_entries accepted_entries : ℕ) → EmptyCapture
diagnose_empty_capture raw_entries accepted_entries =
    if raw_entries == 0
    then never_fired
    else if accepted_entries == 0
    then all_rejected
    else none_delivered

-- One poll of the ring buffer: go on, stop, or fail with the message of libbpf.
unfoldable pub poll_ring : Result Text (Unit {0}) → (stop_requested : Bool) → Result Text Bool
poll_ring (ok u) stop_requested = ok true
poll_ring (err message) stop_requested =
    if contains_text (codes "Interrupted system call") message
    then ok (not stop_requested)
    else err message

-- The entries of `/proc/<pid>/task`: the name of each, and its `comm`. A thread is listed there once.
abbrev named_thread : Option (Text × Option Text) → Option (ℕ × Text)
named_thread none = none
named_thread (some (file_name, comm)) =
    bind (parse_unsigned u32_max file_name) λ tid. bind comm λ name. some (tid, trim name)

unfoldable pub read_thread_names : List (Option (Text × Option Text)) → List (ℕ × Text)
read_thread_names [] = []
read_thread_names (entry ∷ entries) = elim (named_thread entry) [
  | none ↦ read_thread_names entries
  | some thread ↦ thread ∷ read_thread_names entries
]
