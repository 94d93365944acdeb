-- ===== src/Ebpf/Resolver/Load.antt =====
-- crates/slice-ebpf/src/lib.rs: `Resolver::new`, from the parsed ELF file and the text of
-- `/proc/<pid>/maps`. Demangling and the canonical form of a path are parameters.
use slice.Base.{
  ℕ, suc, zero, ◌-◌, Bool, false, not, ◌&&◌, Option, none, some, List, [], ◌∷◌, ◌++◌, length, find,
  leb, ltb, ◌==◌, if◌then◌else◌,
}
use slice.Data.Numerals.{is_whitespace, lines, split_once, starts_with, strip_suffix}
use slice.Data.Sort.{sort}
use slice.Data.Text.{Text, codes, text_eq}
use slice.Data.Words.{sat_add}
use slice.Ebpf.Host.{parse_hex}
use slice.Ebpf.Resolver.{Resolver, Mapping}

-- A symbol of either table, and a loadable segment.
pub record Symbol : Type 0 where
  pub is_text : Bool
  pub address : ℕ
  pub name : Option Text

pub record Segment : Type 0 where
  pub address : ℕ
  pub file_offset : ℕ
  pub file_size : ℕ

pub record ObjectFile : Type 0 where
  pub symbols : List Symbol
  pub dynamic_symbols : List Symbol
  pub segments : List Segment

abbrev pub demangled : (Text → Option Text) → Text → Text
demangled demangle name = elim (demangle name) [ none ↦ name | some pretty ↦ pretty ]

-- The symbols that are code and have an address and a name.
unfoldable pub named_symbols : (Text → Option Text) → List Symbol → List (ℕ × Text)
named_symbols demangle [] = []
named_symbols demangle (s ∷ ss) =
    let rest = named_symbols demangle ss in
    if s.is_text && not (s.address == 0)
    then elim s.name [ none ↦ rest | some name ↦ (s.address, demangled demangle name) ∷ rest ]
    else rest

-- `dedup_by_key`: the first of each run of elements at one address.
unfoldable pub dedup_after {ℓ} : {A : Type ℓ} → ℕ → List (ℕ × A) → List (ℕ × A)
dedup_after address [] = []
dedup_after address ((next, x) ∷ rest) =
    let same = dedup_after address rest in
    let other = dedup_after next rest in if next == address then same else (next, x) ∷ other

unfoldable pub dedup_by_address {ℓ} : {A : Type ℓ} → List (ℕ × A) → List (ℕ × A)
dedup_by_address [] = []
dedup_by_address ((address, x) ∷ rest) = (address, x) ∷ dedup_after address rest

abbrev pub address_leb {ℓ} : {A : Type ℓ} → ℕ × A → ℕ × A → Bool
address_leb (a, x) (b, y) = leb a b

unfoldable pub load_symbols : (Text → Option Text) → ObjectFile → List (ℕ × Text)
load_symbols demangle file =
    dedup_by_address
      (sort address_leb (named_symbols demangle (file.symbols ++ file.dynamic_symbols)))

-- `split_whitespace`, with the word that is being read.
unfoldable pub words_after : Text → Text → List Text
words_after [] [] = []
words_after (w ∷ word) [] = (w ∷ word) ∷ []
words_after [] (c ∷ s) =
    let skip = words_after [] s in
    let begin = words_after (c ∷ []) s in if is_whitespace c then skip else begin
words_after (w ∷ word) (c ∷ s) =
    let end = words_after [] s in
    let more = words_after ((w ∷ word) ++ c ∷ []) s in
    if is_whitespace c then (w ∷ word) ∷ end else more

abbrev pub words : Text → List Text
words = words_after []

-- `trim_end_matches`: the suffix is taken off as often as it stands there.
unfoldable pub trim_end_times : ℕ → Text → Text → Text
trim_end_times zero suffix s = s
trim_end_times (suc fuel) suffix s = elim (strip_suffix suffix s) [
  | none ↦ s
  | some before ↦ trim_end_times fuel suffix before
]

abbrev pub trim_end_matches : Text → Text → Text
trim_end_matches suffix s = trim_end_times (length s) suffix s

abbrev bind {ℓ κ} : {A : Type ℓ} {B : Type κ} → Option A → (A → Option B) → Option B
bind none f = none
bind (some x) f = f x

abbrev is_path : Option Text → Text → Bool
is_path none module_path = false
is_path (some path) module_path = text_eq path module_path

-- `start-end` in hexadecimal.
unfoldable pub address_range : Text → Option (ℕ × ℕ)
address_range text =
    bind (split_once 45 text)
      λ ends. bind (parse_hex ends.0) λ start. bind (parse_hex ends.1) λ stop. some (start, stop)

abbrev pub holds_offset : ℕ → Segment → Bool
holds_offset offset segment =
    leb segment.file_offset offset && ltb offset (sat_add segment.file_offset segment.file_size)

-- The mapping of one line, if the line maps a segment of the module.
unfoldable pub mapping_of_fields :
    (canonicalize : Text → Option Text)
    → (module_path : Text) → List Segment
    → (range offset path : Text) → Option Mapping
mapping_of_fields canonicalize module_path segments range offset path =
    let mapped = trim_end_matches (codes " (deleted)") path in
    if starts_with (codes "/") path && is_path (canonicalize mapped) module_path
    then (bind (address_range range) λ ends. bind (parse_hex offset) λ file_at.
        bind (find (holds_offset file_at) segments) λ segment. some (record {
          runtime_start = ends.0;
          runtime_end = ends.1;
          file_start = sat_add segment.address (file_at - segment.file_offset);
        }))
    else none

-- A line with fewer than six fields is left out.
unfoldable pub mapping_of_line :
    (canonicalize : Text → Option Text)
    → (module_path : Text) → List Segment
    → List Text
    → Option Mapping
mapping_of_line canonicalize module_path segments
      (range ∷ permissions ∷ offset ∷ device ∷ inode ∷ path ∷ more) =
    mapping_of_fields canonicalize module_path segments range offset path
mapping_of_line canonicalize module_path segments _ = none

unfoldable pub load_mappings :
    (canonicalize : Text → Option Text)
    → (module_path : Text) → List Segment
    → List Text
    → List Mapping
load_mappings canonicalize module_path segments [] = []
load_mappings canonicalize module_path segments (line ∷ rest) =
    let mappings = load_mappings canonicalize module_path segments rest in
    elim (mapping_of_line canonicalize module_path segments (words line)) [
      | none ↦ mappings
      | some mapping ↦ mapping ∷ mappings
    ]

-- The path stands for itself where it has no canonical form; maps that cannot be read are empty.
unfoldable pub new_resolver :
    (demangle canonicalize : Text → Option Text)
    → (path : Text) → ObjectFile
    → (maps : Option Text) → Resolver
new_resolver demangle canonicalize path file maps = record {
  symbols = load_symbols demangle file;
  mappings =
      load_mappings canonicalize
        (elim (canonicalize path) [ none ↦ path | some canonical ↦ canonical ]) file.segments
        (lines (elim maps [ none ↦ [] | some text ↦ text ]));
}
