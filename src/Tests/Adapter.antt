-- ===== src/Tests/Adapter.antt =====
-- The adapter, the symbols of an ELF file and the output file, at small inputs.
use slice.Base.{ℕ, ◌≡◌, refl, true, false, Option, none, some, [], ◌∷◌, ok, err}
use slice.Cli.Symbols.{SelectedSymbol, select_symbol, selected, matching}
use slice.Cli.Symbols.Laws.{IsSelected, select_symbol-IsSelected}
use slice.Cli.Launch
use slice.Cli.Launch.{
  profile, choose_target, start_target, prepare_capture, launches, stops, identity_failed,
}
use slice.Cli.Launch.Targets.{fate, expected, fate-profile, not_launched}
use slice.Cli.Write.{Files, Outcomes, complete, temporary_name, write_profile_atomically}
use slice.Cli.Write.Atomic.{IsAtomic, write_profile_atomically-IsAtomic}
use slice.Data.Numerals.{lines, split, strip_suffix, parse_unsigned, parse_digits, trim, split_once}
use slice.Core.Envelope.{Codec}
use slice.Tests.Data.{two_threads}
use slice.Data.Sort.{sort, insert}
use slice.Data.Text.{Text, codes}
use slice.Ebpf.Host.{
  parse_kernel_tgid, find_prefixed, first_word, effective_capability, parse_hex, parse_hex_digits,
}
use slice.Ebpf.Host.Cpus.{available_cpu_ids, cpus_of_all, cpus_of, reversed_range}
use slice.Ebpf.Resolver.{symbol_at}
use slice.Ebpf.Resolver.Load.{
  ObjectFile, named_symbols, load_symbols, dedup_by_address, dedup_after,
}
use slice.Ebpf.Resolver.Nearest.{IsNearest, code_symbols, name_of, symbol_at-load_symbols}

-- The test of the source for the outermost namespace.
outermost_pid : parse_kernel_tgid (codes "Name:\tx\nTgid:\t7\nNSpid:\t4242\t7\n") ≡ some 4242
unfolding parse_kernel_tgid find_prefixed first_word lines split strip_suffix parse_unsigned
    parse_digits
outermost_pid = refl

cpu_ranges : available_cpu_ids (some (codes "0-2,5\n")) none ≡ ok (0 ∷ 1 ∷ 2 ∷ 5 ∷ [])
unfolding available_cpu_ids cpus_of_all cpus_of split trim parse_unsigned split_once parse_digits
cpu_ranges = refl

cpu_range_reversed :
    available_cpu_ids (some (codes "3-1")) none ≡ err (reversed_range (codes "3-1"))
unfolding available_cpu_ids cpus_of_all cpus_of split trim parse_unsigned split_once parse_digits
cpu_range_reversed = refl

-- Two symbols at one address, one that is not code, and one without a name.
abbrev elf : ObjectFile
elf = record {
  symbols =
      record { is_text = true; address = 0x1200; name = some (codes "work") }
      ∷ record { is_text = true; address = 0x1000; name = some (codes "start") }
      ∷ record { is_text = false; address = 0x1300; name = some (codes "table") }
      ∷ record { is_text = true; address = 0x1250; name = none }
      ∷ [];
  dynamic_symbols = record { is_text = true; address = 0x1200; name = some (codes "alias") } ∷ [];
  segments = record { address = 0x1000; file_offset = 0x400; file_size = 0x800 } ∷ [];
}

abbrev no_demangler : Text → Option Text
no_demangler name = none

symbol_at-load_symbols_example :
    (o : Option (ℕ × Text)) × IsNearest 0x1280 (code_symbols no_demangler elf) o
    × (symbol_at (load_symbols no_demangler elf) 0x1280 ≡ name_of o)
symbol_at-load_symbols_example = symbol_at-load_symbols no_demangler elf 0x1280

nearest_symbol : symbol_at (load_symbols no_demangler elf) 0x1280 ≡ some (codes "work")
unfolding symbol_at load_symbols named_symbols dedup_by_address dedup_after sort insert
nearest_symbol = refl

abbrev work_symbol : SelectedSymbol
work_symbol = record {
  raw_name = codes "work";
  demangled_name = codes "work";
  address = 0x1200;
  probe_offset = 0x600;
}

work_selected : select_symbol no_demangler elf (codes "work") ≡ ok work_symbol
unfolding select_symbol selected matching dedup_by_address dedup_after sort insert
work_selected = refl

select_symbol-IsSelected_example : IsSelected no_demangler elf (codes "work") work_symbol
select_symbol-IsSelected_example =
    select_symbol-IsSelected no_demangler elf (codes "work") work_symbol work_selected

-- A library that writes every profile as the empty text.
abbrev empty_text : Codec
empty_text = record {
  to_vec = λ p. some [];
  from_slice = λ bytes. none;
  encode_all = λ bytes. some bytes;
  decode_all = λ bytes. some bytes;
}

-- The rename fails after the bytes were written.
abbrev not_renamed : Outcomes
not_renamed = record { written = complete; renamed = false; removed = true }

abbrev empty_directory : Files
empty_directory name = none

write_profile_atomically-IsAtomic_example :
    IsAtomic empty_text not_renamed
      (codes "out.slice")
      (temporary_name (codes "out.slice") (codes "42"))
      two_threads
      empty_directory
      (write_profile_atomically empty_text not_renamed
        (some (codes "out.slice"))
        (codes "42")
        two_threads
        empty_directory)
write_profile_atomically-IsAtomic_example =
    write_profile_atomically-IsAtomic empty_text not_renamed (codes "out.slice") (codes "42")
      two_threads empty_directory

-- A wrong hex digit, and the bit of BPF.
capability_of_bpf :
    effective_capability (some (codes "CapInh:\t0\nCapEff:\t000000ffFFFFffff\n")) 39 ≡ true
unfolding effective_capability find_prefixed parse_hex parse_hex_digits lines split strip_suffix
    trim
capability_of_bpf = refl

-- The identity of a launched target cannot be resolved.
abbrev unidentified : Launch.Outcomes
unidentified = record {
  symbol = ok work_symbol;
  launched = some 7;
  stopped = true;
  identified = false;
  handler_installed = true;
  captured = none;
  resumed = false;
  written = true;
  waited = true;
  killed = true;
}

fate-profile_example :
    fate not_launched (profile none none (some (codes "prog")) unidentified).0
    ≡ expected unidentified (profile none none (some (codes "prog")) unidentified).1
fate-profile_example = fate-profile (codes "prog") none unidentified

left_stopped :
    profile none none (some (codes "prog")) unidentified
    ≡ (launches 7 ∷ stops true 7 ∷ [], err identity_failed)
unfolding profile choose_target start_target prepare_capture
left_stopped = refl
