-- ===== src/Ebpf/Resolver.antt =====
-- crates/slice-ebpf/src/lib.rs: `Resolver::frames`, over the two tables that `Resolver::new` makes.
pub mod Load
pub mod Nearest
use mathlib.Core.List.{reverse}
use slice.Base.{
  ℕ, zero, suc, ◌+◌, ◌-◌, ◌/◌, ◌%◌, ◌&&◌, Option, none, some, List, [], ◌∷◌, ◌++◌, map, find, leb,
  ltb, ◌==◌, if◌then◌else◌,
}
use slice.Core.Profile.{Frame}
use slice.Data.Text.{Text, codes}
use slice.Data.Words.{sat_add}

pub record Mapping : Type 0 where
  pub runtime_start : ℕ
  pub runtime_end : ℕ
  pub file_start : ℕ

pub record Resolver : Type 0 where
  pub symbols : List (ℕ × Text)
  pub mappings : List Mapping

abbrev hex_digit : ℕ → ℕ
hex_digit d = if ltb d 10 then 48 + d else 87 + d

-- `{:x}` of a number of at most `digits` digits.
hex_from : ℕ → ℕ → Text → Text
hex_from zero n rest = rest
hex_from (suc digits) n rest =
    let more = hex_from digits (n / 16) (hex_digit (n % 16) ∷ rest) in if n == 0 then rest else more

-- A `u64` has at most 16 digits.
unfoldable pub hex : ℕ → Text
unfolding hex_from
hex n = if n == 0 then codes "0" else hex_from 16 n []

-- The address in the file, by the first mapping that holds the runtime address.
unfoldable pub file_address : List Mapping → ℕ → Option ℕ
file_address mappings address =
    elim (find (λ m. leb m.runtime_start address && ltb address m.runtime_end) mappings) [
      | none ↦ none
      | some m ↦ some (sat_add m.file_start (address - m.runtime_start))
    ]

-- The last symbol that starts at or before the address.
unfoldable pub symbol_at : List (ℕ × Text) → ℕ → Option Text
symbol_at symbols address = elim (find (λ (start, name). leb start address) (reverse symbols)) [
  | none ↦ none
  | some (start, name) ↦ some name
]

abbrev unknown_label : ℕ → Text
unknown_label address = codes "[unknown 0x" ++ hex address ++ codes "]"

unfoldable pub frame_at : Resolver → ℕ → Frame
frame_at r address =
    let in_file = file_address r.mappings address in
    record {
      function_id = none;
      label = elim in_file [
        | none ↦ unknown_label address
        | some a ↦ elim (symbol_at r.symbols a) [ none ↦ unknown_label address | some name ↦ name ]
      ];
      module_path = elim in_file [ none ↦ none | some a ↦ some (codes "target") ];
      address = some address;
    }

-- The kernel's stacks begin at the leaf, those of the profile at the root.
unfoldable pub frames : Resolver → List ℕ → List Frame
frames r addresses = reverse (map (frame_at r) addresses)
