-- ===== src/Cli/Symbols/Laws.antt =====
-- What `select_symbol` selects.
use mathlib.Core.List.{mem-cons_self, mem-cons_of_mem}
use mathlib.Core.List.Perm
use native.Mathlib.Decide.{ℕ_discrete}
use slice.Base.{
  ℕ, ◌-◌, ◌≡◌, ◌≢◌, arith, refl, sym, ap, ◌∙◌, subst, Bool, true, not, ◌&&◌, Option, some, List, [],
  ◌∷◌, ◌++◌, Mem, find, All, All-Perm, ◌==◌, Bool-cases, Option-cases, inl, inr, ok, ok-injective,
}
use slice.Cli.Symbols.{SelectedSymbol, matching, selected, select_symbol, holds_address}
use slice.Data.Sort.{sort, sort-perm, sort-All}
use slice.Data.Text.{Text, text_eq, text_eq→≡, text_eq_self}
use slice.Data.Words.{sat_add}
use slice.Ebpf.Resolver.Load.{Symbol, Segment, ObjectFile, demangled, dedup_by_address, address_leb}
use slice.Ebpf.Resolver.Nearest.{All-dedup, dedup-All}

-- A symbol of code, not at address 0, whose readable name is the requested one.
pub record IsNamed (demangle : Text → Option Text) (requested : Text) (symbol : Symbol)
    : Type 0 where
  pub code : symbol.is_text ≡ true
  pub placed : symbol.address ≢ 0
  pub raw : Text
  pub known : symbol.name ≡ some raw
  pub same : demangled demangle raw ≡ requested

-- The symbol is at the only address of the requested name, and its offset is in a segment.
pub record IsSelected (demangle : Text → Option Text) (file : ObjectFile) (requested : Text)
    (s : SelectedSymbol) : Type 0 where
  pub same_name : s.demangled_name ≡ requested
  pub only_one :
      All
        (λ symbol. IsNamed demangle requested symbol → symbol.address ≡ s.address)
        (file.symbols ++ file.dynamic_symbols)
  pub in_segment :
      (segment : Segment) × Mem segment file.segments
      × (holds_address s.address segment ≡ true)
      × (s.probe_offset ≡ sat_add segment.file_offset (s.address - segment.address))

find-Mem {ℓ} :
    {A : Type ℓ} (p : A → Bool) (xs : List A) (x : A) → find p xs ≡ some x → Mem x xs × (p x ≡ true)
find-Mem p [] x h = cc
find-Mem p (y ∷ ys) x h = elim (Bool-cases (p y)) [
  | inl e ↦
      let same : y ≡ x = let h' = rw e at h in cc (h') in
      (subst (λ z. Mem z (y ∷ ys)) same mem-cons_self, subst (λ z. p z ≡ true) same e)
  | inr e ↦ let (m, t) = find-Mem p ys x (rw e at h) in (mem-cons_of_mem y m, t)
]

-- What is known of the only candidate.
record IsOnly (cs : List (ℕ × (Text × Text))) (segments : List Segment) (s : SelectedSymbol)
    : Type 0 where
  alone : cs ≡ (s.address, (s.raw_name, s.demangled_name)) ∷ []
  placed :
      (segment : Segment) × Mem segment segments
      × (holds_address s.address segment ≡ true)
      × (s.probe_offset ≡ sat_add segment.file_offset (s.address - segment.address))

selected-IsOnly :
    (segments : List Segment) (cs : List (ℕ × (Text × Text))) (s : SelectedSymbol)
    → selected segments cs ≡ ok s
    → IsOnly cs segments s
unfolding selected
selected-IsOnly segments [] s h = cc
selected-IsOnly segments ((address, (raw, pretty)) ∷ []) s h =
    elim (Option-cases (find (holds_address address) segments)) [
      | inl e ↦ let h' = rw (e, selected) at h in cc (h')
      | inr (segment, e) ↦
          let h' = rw (e, selected) at h in
          let (known, holds) = find-Mem (holds_address address) segments segment e in
          subst (IsOnly ((address, (raw, pretty)) ∷ []) segments) (ok-injective h')
            (record { alone = refl; placed = (segment, known, holds, refl) })
    ]
selected-IsOnly segments (c ∷ d ∷ cs) s h = cc

matching-named :
    (demangle : Text → Option Text) (requested : Text) (ss : List Symbol)
    → All (λ (address, (raw, pretty)). pretty ≡ requested) (matching demangle requested ss)
unfolding matching
matching-named demangle requested [] = tt
matching-named demangle requested (s ∷ ss) =
    let rest = matching-named demangle requested ss in
    elim (Bool-cases (s.is_text && not (s.address == 0))) [
      | inl e ↦ elim (Option-cases s.name) [
        | inl e' ↦ rw (e, e') rest
        | inr (raw, e') ↦ elim (Bool-cases (text_eq (demangled demangle raw) requested)) [
          | inl same ↦ rw (e, e', same) (text_eq→≡ (demangled demangle raw) requested same, rest)
          | inr other ↦ rw (e, e', other) rest
        ]
      ]
      | inr e ↦ rw e rest
    ]

-- What holds of the addresses of all candidates holds of every symbol with the name.
matching-IsNamed :
    (demangle : Text → Option Text) (requested : Text) (P : ℕ → Type 0) (ss : List Symbol)
    → All (λ (address, names). P address) (matching demangle requested ss)
    → All (λ symbol. IsNamed demangle requested symbol → P symbol.address) ss
unfolding matching
matching-IsNamed demangle requested P [] a = tt
matching-IsNamed demangle requested P (s ∷ ss) a =
    let rest = matching-IsNamed demangle requested P ss in
    elim (Bool-cases (s.is_text && not (s.address == 0))) [
      | inr e ↦ (
        (λ named. absurd (let c = named.code in let n = named.placed in ground (arith, c, n, e))),
        rest (rw e at a),
      )
      | inl e ↦ elim (Option-cases s.name) [
        | inl e' ↦ ((λ named. absurd (let k = named.known in cc)), rest (rw (e, e') at a))
        | inr (raw, e') ↦ elim (Bool-cases (text_eq (demangled demangle raw) requested)) [
          | inl same ↦
              let a' : All (λ (address, names). P address)
                  ((s.address, (raw, demangled demangle raw)) ∷ matching demangle requested ss) =
                rw (e, e', same) at a in
              ((λ named. a'.0), rest a'.1)
          | inr other ↦ (
            (λ named. absurd (
                let k = named.known in
                let t = named.same in
                let eq : raw ≡ named.raw = cc in
                let found : demangled demangle raw ≡ requested = ap (demangled demangle) eq ∙ t in
                let self = text_eq_self requested in let other' = rw found at other in cc)),
            rest (rw (e, e', other) at a),
          )
        ]
      ]
    ]

-- If a symbol is selected, it has the requested demangled name, no other address of the file has a
-- code symbol of that name, and the offset of the probe is that of the address in a segment that
-- holds it.
pub select_symbol-IsSelected :
    (demangle : Text → Option Text) (file : ObjectFile) (requested : Text) (s : SelectedSymbol)
    → select_symbol demangle file requested ≡ ok s
    → IsSelected demangle file requested s
unfolding select_symbol
select_symbol-IsSelected demangle file requested s h =
    let cs = matching demangle requested (file.symbols ++ file.dynamic_symbols) in
    let sorted = sort address_leb cs in
    let only = selected-IsOnly file.segments (dedup_by_address sorted) s h in
    let Named : ℕ × (Text × Text) → Type 0 = λ (address, (raw, pretty)). pretty ≡ requested in
    let named = dedup-All Named sorted (
      sort-All address_leb Named cs
        (matching-named demangle requested (file.symbols ++ file.dynamic_symbols))) in
    let here : All (λ (address, names). address ≡ s.address) (dedup_by_address sorted) =
      subst (All (λ (address, names). address ≡ s.address)) (sym only.alone) (refl, tt) in
    record {
      same_name = (subst (All Named) only.alone named).0;
      only_one =
          matching-IsNamed demangle requested (λ a. a ≡ s.address)
            (file.symbols ++ file.dynamic_symbols)
            (All-Perm (λ (address, names). address ≡ s.address) (λ x. hlevel (ℕ_discrete)) sorted cs
              (Perm.symm (sort-perm address_leb cs)) (All-dedup (λ a. a ≡ s.address) sorted here));
      in_segment = only.placed;
    }
