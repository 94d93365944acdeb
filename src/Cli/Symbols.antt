-- ===== src/Cli/Symbols.antt =====
-- crates/slice-cli/src/main.rs: `select_symbol` and `list_symbols`, over the parsed ELF file. The
-- demangler and `str::to_lowercase` are parameters.
pub mod Laws
use Prim.Native.Nat.{Ordering}
use slice.Base.{
  ℕ, ◌+◌, ◌-◌, Bool, true, false, not, ◌&&◌, ◌||◌, Option, none, some, List, [], ◌∷◌, ◌++◌, map,
  find, leb, ltb, ◌==◌, if◌then◌else◌, Result, ok, err, or_fail, ◌>>=◌,
}
use slice.Data.Numerals.{contains_text}
use slice.Data.Sort.{sort}
use slice.Data.Text.{Text, text_eq, compare_text}
use slice.Data.Words.{sat_add}
use slice.Ebpf.Resolver.Load.{Symbol, Segment, ObjectFile, demangled, dedup_by_address, address_leb}

pub record SelectedSymbol : Type 0 where
  pub raw_name : Text
  pub demangled_name : Text
  pub address : ℕ
  pub probe_offset : ℕ

pub data SelectError : Type 0 where
  no_function : SelectError
  ambiguous : List ℕ → SelectError
  no_segment : SelectError

-- The code symbols whose demangled name is the requested one, each with its address first.
unfoldable pub matching :
    (demangle : Text → Option Text) → (requested : Text) → List Symbol → List (ℕ × (Text × Text))
matching demangle requested [] = []
matching demangle requested (s ∷ ss) =
    let rest = matching demangle requested ss in
    if s.is_text && not (s.address == 0)
    then elim s.name [
      | none ↦ rest
      | some raw ↦
          if text_eq (demangled demangle raw) requested
          then (s.address, (raw, demangled demangle raw)) ∷ rest
          else rest
    ]
    else rest

abbrev pub holds_address : ℕ → Segment → Bool
holds_address address segment =
    leb segment.address address && ltb address (sat_add segment.address segment.file_size)

-- The only candidate is selected if its address lies in a segment.
unfoldable pub selected :
    List Segment → List (ℕ × (Text × Text)) → Result SelectError SelectedSymbol
selected segments [] = err no_function
selected segments ((address, (raw, pretty)) ∷ []) = elim (find (holds_address address) segments) [
  | none ↦ err no_segment
  | some segment ↦ ok (record {
    raw_name = raw;
    demangled_name = pretty;
    address = address;
    probe_offset = sat_add segment.file_offset (address - segment.address);
  })
]
selected segments (c ∷ d ∷ cs) = err (ambiguous (map (λ (address, names). address) (c ∷ d ∷ cs)))

unfoldable pub select_symbol :
    (demangle : Text → Option Text)
    → ObjectFile
    → (requested : Text) → Result SelectError SelectedSymbol
select_symbol demangle file requested = selected file.segments (
    dedup_by_address
      (sort address_leb (matching demangle requested (file.symbols ++ file.dynamic_symbols))))

-- The entries of `list_symbols`: address, raw name and demangled name.
abbrev Entry : Type 0
Entry = ℕ × (Text × Text)

abbrev text_leb : Text → Text → Bool
text_leb a b = elim (compare_text a b) [
  | Ordering.lt ↦ true
  | Ordering.eq ↦ true
  | Ordering.gt ↦ false
]

-- The order of the tuples.
abbrev pub entry_leb : Entry → Entry → Bool
entry_leb (a, (raw, pretty)) (b, (raw', pretty')) =
    ltb a b
    || ((a == b)
        && ((text_leb raw raw' && not (text_eq raw raw'))
            || (text_eq raw raw' && text_leb pretty pretty')))

abbrev pub entry_eq : Entry → Entry → Bool
entry_eq (a, (raw, pretty)) (b, (raw', pretty')) =
    (a == b) && (text_eq raw raw' && text_eq pretty pretty')

unfoldable pub dedup_entries : Entry → List Entry → List Entry
dedup_entries e [] = []
dedup_entries e (f ∷ fs) =
    let same = dedup_entries e fs in
    let other = dedup_entries f fs in if entry_eq f e then same else f ∷ other

abbrev pub distinct_entries : List Entry → List Entry
distinct_entries [] = []
distinct_entries (e ∷ es) = e ∷ dedup_entries e es

-- Does the name hold the needle, both in lower case? No needle is held by every name.
abbrev pub is_wanted : (to_lowercase : Text → Text) → Option Text → Text → Bool
is_wanted to_lowercase none name = true
is_wanted to_lowercase (some needle) name = contains_text (to_lowercase needle) (to_lowercase name)

unfoldable pub wanted_entries :
    (demangle : Text → Option Text) (to_lowercase : Text → Text)
    → (needle : Option Text) → List Symbol
    → List Entry
wanted_entries demangle to_lowercase needle [] = []
wanted_entries demangle to_lowercase needle (s ∷ ss) =
    let rest = wanted_entries demangle to_lowercase needle ss in
    if s.is_text
    then elim s.name [
      | none ↦ rest
      | some raw ↦
          if is_wanted to_lowercase needle (demangled demangle raw)
          then (s.address, (raw, demangled demangle raw)) ∷ rest
          else rest
    ]
    else rest

-- What is printed after the two lines of the heading; `none` is the error of an empty list.
abbrev some_entries : List Entry → Option (List (ℕ × Text))
some_entries [] = none
some_entries (e ∷ es) = some (map (λ (address, (raw, pretty)). (address, pretty)) (e ∷ es))

unfoldable pub list_symbols :
    (demangle : Text → Option Text) (to_lowercase : Text → Text)
    → ObjectFile
    → (needle : Option Text) → Option (List (ℕ × Text))
list_symbols demangle to_lowercase file needle = some_entries (
    distinct_entries (
      sort entry_leb
        (wanted_entries demangle to_lowercase needle (file.symbols ++ file.dynamic_symbols))))
