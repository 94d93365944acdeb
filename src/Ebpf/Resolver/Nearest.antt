-- ===== src/Ebpf/Resolver/Nearest.antt =====
-- Which symbol an address resolves to.
use mathlib.Core.List.{reverse_aux, mem-cons, mem-cons_of_mem, mem-cons_self, Mem, Perm}
use mathlib.Core.List.Perm
use mathlib.Core.Logic.Or
use native.Mathlib.Bridge.{le_prop}
use slice.Base.{
  ℕ, ◌≤◌, ◌<◌, ◌≡◌, refl, sym, ap, subst, ◌∙◌, Bool, true, false, Option, none, some, List, [], ◌∷◌,
  ◌++◌, find, map, select, not, ◌&&◌, All, All-map, All-Perm, All-Mem, leb, ◌==◌, ==_iff,
  if◌then◌else◌, Bool-cases, Option-cases, inl, inr, leb→le, arith,
}
use slice.Data.Sort.{sort, sort-perm, sort-IsSorted, IsSorted}
use slice.Data.Text.{Text}
use slice.Ebpf.Resolver.{symbol_at}
use slice.Ebpf.Resolver.Load.{
  ObjectFile, Symbol, demangled, named_symbols, dedup_after, dedup_by_address, address_leb,
  load_symbols,
}

abbrev starts_by : ℕ → ℕ × Text → Bool
starts_by a (start, name) = leb start a

-- `find` from the back.
abbrev then_try {ℓ} : {A : Type ℓ} → Option A → Option A → Option A
then_try none other = other
then_try (some x) other = some x

abbrev find_last {ℓ} : {A : Type ℓ} → (A → Bool) → List A → Option A
find_last p [] = none
find_last p (x ∷ xs) = then_try (find_last p xs) (if p x then some x else none)

find-reverse {ℓ} :
    {A : Type ℓ} (p : A → Bool) (xs acc : List A)
    → find p (reverse_aux xs acc) ≡ then_try (find_last p xs) (find p acc)
find-reverse p [] acc = refl
find-reverse p (x ∷ xs) acc = find-reverse p xs (x ∷ acc) ∙ elim (Option-cases (find_last p xs)) [
  | inl e ↦ rw e (elim (Bool-cases (p x)) [ inl e' ↦ rw e' refl | inr e' ↦ rw e' refl ])
  | inr (y, e) ↦ rw e refl
]

-- The symbol has the last address up to `a`; none has if all begin behind it.
abbrev pub IsNearest : ℕ → List (ℕ × Text) → Option (ℕ × Text) → Type 0
IsNearest a ss none = All (λ (start, name). a < start) ss
IsNearest a ss (some (start, name)) =
    Mem (start, name) ss × (start ≤ a) × All (λ (other, n). other ≤ a → other ≤ start) ss

find_last-IsNearest :
    (a : ℕ) (ss : List (ℕ × Text))
    → IsSorted address_leb ss
    → IsNearest a ss (find_last (starts_by a) ss)
find_last-IsNearest a [] sorted = tt
find_last-IsNearest a ((start, name) ∷ ss) sorted =
    let rest = find_last-IsNearest a ss sorted.1 in
    elim (Option-cases (find_last (starts_by a) ss)) [
      | inl e ↦
          let behind : All (λ (other, n). a < other) ss = rw e at rest in
          elim (Bool-cases (leb start a)) [
            | inl e' ↦
                rw (e, e')
                  (
                    mem-cons_self,
                    leb→le start a e',
                    (
                      (λ le. omega arith),
                      All-map _ _ (λ (other, n) lt le. omega (arith, lt, le)) ss behind,
                    ),
                  )
            | inr e' ↦ rw (e, e') (ground (arith, e'), behind)
          ]
      | inr ((best, label), e) ↦
          let (known, below, last) : IsNearest a ss (some (best, label)) = rw e at rest in
          rw e (
            mem-cons_of_mem _ known,
            below,
            (
              (λ le. leb→le start best (
                  All-Mem (λ y. address_leb (start, name) y ≡ true) (λ y. hlevel) ss sorted.0
                    (best, label) known)),
              last,
            ),
          )
    ]

-- `dedup_by_address` takes elements out and keeps every address.
module _ {A : Type 0} (P : ℕ × A → Type 0) where
  dedup_after-All : (a : ℕ) (ss : List (ℕ × A)) → All P ss → All P (dedup_after a ss)
  unfolding dedup_after
  dedup_after-All a [] h = tt
  dedup_after-All a ((next, name) ∷ ss) h = elim (Bool-cases (next == a)) [
    | inl e ↦ rw e (dedup_after-All a ss h.1)
    | inr e ↦ rw e (h.0, dedup_after-All next ss h.1)
  ]

  pub dedup-All : (ss : List (ℕ × A)) → All P ss → All P (dedup_by_address ss)
  unfolding dedup_by_address
  dedup-All [] h = tt
  dedup-All ((a, x) ∷ ss) h = (h.0, dedup_after-All a ss h.1)

dedup_after-IsSorted :
    (a : ℕ) (ss : List (ℕ × Text))
    → IsSorted address_leb ss
    → IsSorted address_leb (dedup_after a ss)
unfolding dedup_after
dedup_after-IsSorted a [] h = tt
dedup_after-IsSorted a ((next, name) ∷ ss) h = elim (Bool-cases (next == a)) [
  | inl e ↦ rw e (dedup_after-IsSorted a ss h.1)
  | inr e ↦ rw e (dedup_after-All _ next ss h.0, dedup_after-IsSorted next ss h.1)
]

dedup_after-Mem :
    (a : ℕ) (ss : List (ℕ × Text)) (x : ℕ × Text) → Mem x (dedup_after a ss) → Mem x ss
unfolding dedup_after
dedup_after-Mem a [] x m = m
dedup_after-Mem a ((next, name) ∷ ss) x m = elim (Bool-cases (next == a)) [
  | inl e ↦ mem-cons_of_mem _ (dedup_after-Mem a ss x (rw e at m))
  | inr e ↦
      let m' : Mem x ((next, name) ∷ dedup_after next ss) = rw e at m in
      Or.elim (hlevel) (mem-cons.0 m') (λ here. mem-cons.1 (Or.inl here))
        (λ later. mem-cons_of_mem _ (dedup_after-Mem next ss x later))
]

module _ {A : Type 0} (Q : ℕ → Type 0) where
  All-dedup_after :
      (a : ℕ) (ss : List (ℕ × A))
      → Q a
      → All (λ (s, n). Q s) (dedup_after a ss)
      → All (λ (s, n). Q s) ss
  unfolding dedup_after
  All-dedup_after a [] q h = tt
  All-dedup_after a ((next, name) ∷ ss) q h = elim (Bool-cases (next == a)) [
    | inl e ↦
        let q' = subst Q (sym ((==_iff next a).0 e)) q in (q', All-dedup_after a ss q (rw e at h))
    | inr e ↦
        let h' : All (λ (s, n). Q s) ((next, name) ∷ dedup_after next ss) = rw e at h in
        (h'.0, All-dedup_after next ss h'.0 h'.1)
  ]

  pub All-dedup :
      (ss : List (ℕ × A)) → All (λ (s, n). Q s) (dedup_by_address ss) → All (λ (s, n). Q s) ss
  unfolding dedup_by_address
  All-dedup [] h = tt
  All-dedup ((a, name) ∷ ss) h = (h.0, All-dedup_after a ss h.0 h.1)

dedup-IsSorted :
    (ss : List (ℕ × Text)) → IsSorted address_leb ss → IsSorted address_leb (dedup_by_address ss)
unfolding dedup_by_address
dedup-IsSorted [] h = tt
dedup-IsSorted ((a, name) ∷ ss) h = (dedup_after-All _ a ss h.0, dedup_after-IsSorted a ss h.1)

dedup-Mem : (ss : List (ℕ × Text)) (x : ℕ × Text) → Mem x (dedup_by_address ss) → Mem x ss
unfolding dedup_by_address
dedup-Mem [] x m = m
dedup-Mem ((a, name) ∷ ss) x m =
    Or.elim (hlevel) (mem-cons.0 m) (λ here. mem-cons.1 (Or.inl here))
      (λ later. mem-cons_of_mem _ (dedup_after-Mem a ss x later))

dedup-IsNearest :
    (a : ℕ) (ss : List (ℕ × Text)) (o : Option (ℕ × Text))
    → IsNearest a (dedup_by_address ss) o
    → IsNearest a ss o
dedup-IsNearest a ss none h = All-dedup (λ s. a < s) ss h
dedup-IsNearest a ss (some (start, name)) (known, below, last) =
    (dedup-Mem ss (start, name) known, below, All-dedup (λ s. s ≤ a → s ≤ start) ss last)

Perm-IsNearest :
    (a : ℕ) (ss ts : List (ℕ × Text)) (o : Option (ℕ × Text))
    → Perm ts ss
    → IsNearest a ss o
    → IsNearest a ts o
Perm-IsNearest a ss ts none perm h = All-Perm _ (λ x. le_prop) ss ts perm h
Perm-IsNearest a ss ts (some (start, name)) perm (known, below, last) =
    ((Perm.mem_iff perm).1 known, below, All-Perm _ (λ x. hlevel (le_prop)) ss ts perm last)

address_leb_total : (x y : ℕ × Text) → address_leb x y ≡ false → address_leb y x ≡ true
address_leb_total (a, n) (b, m) h = ground arith

address_leb_trans :
    (x y z : ℕ × Text) → address_leb x y ≡ true → address_leb y z ≡ true → address_leb x z ≡ true
address_leb_trans (a, n) (b, m) (c, k) h g = ground arith

abbrev pub name_of : Option (ℕ × Text) → Option Text
name_of none = none
name_of (some (start, name)) = some name

find-name_of :
    (a : ℕ) (ss : List (ℕ × Text)) → symbol_at ss a ≡ name_of (find_last (starts_by a) ss)
unfolding symbol_at
find-name_of a ss =
    let found = find-reverse (starts_by a) ss [] in
    elim (Option-cases (find_last (starts_by a) ss)) [
      | inl e ↦ rw (found, e, symbol_at) refl
      | inr ((start, name), e) ↦ rw (found, e, symbol_at) refl
    ]

-- The symbols of a file that are code, with an address and a name.
abbrev is_code : Symbol → Bool
is_code s = s.is_text && (not (s.address == 0) && elim s.name [ none ↦ false | some raw ↦ true ])

-- A symbol by its address and its readable name.
abbrev labelled : (Text → Option Text) → Symbol → ℕ × Text
labelled demangle s = (s.address, demangled demangle (elim s.name [ none ↦ [] | some raw ↦ raw ]))

abbrev pub code_symbols : (Text → Option Text) → ObjectFile → List (ℕ × Text)
code_symbols demangle file =
    map (labelled demangle) (select is_code (file.symbols ++ file.dynamic_symbols))

named_symbols-select :
    (demangle : Text → Option Text) (ss : List Symbol)
    → named_symbols demangle ss ≡ map (labelled demangle) (select is_code ss)
unfolding named_symbols
named_symbols-select demangle [] = refl
named_symbols-select demangle (s ∷ ss) =
    let rest = named_symbols-select demangle ss in
    elim (Bool-cases s.is_text) [
      | inr data_only ↦ rw data_only rest
      | inl code ↦ elim (Bool-cases (s.address == 0)) [
        | inl nowhere ↦ rw (code, nowhere) rest
        | inr placed ↦ elim (Option-cases s.name) [
          | inl e ↦ rw (code, placed, e) rest
          | inr (raw, e) ↦
              rw (code, placed, e) (ap (λ t. (s.address, demangled demangle raw) ∷ t) rest)
        ]
      ]
    ]

-- An address resolves to the name of a symbol of the file that is code, named and not at 0, and that
-- starts at or before the address, such that no other of them starts between the two; it has no name
-- exactly if all of them start behind it.
pub symbol_at-load_symbols :
    (demangle : Text → Option Text) (file : ObjectFile) (a : ℕ)
    → (o : Option (ℕ × Text)) × IsNearest a (code_symbols demangle file) o
      × (symbol_at (load_symbols demangle file) a ≡ name_of o)
unfolding load_symbols
symbol_at-load_symbols demangle file a =
    let ss = named_symbols demangle (file.symbols ++ file.dynamic_symbols) in
    let sorted = sort address_leb ss in
    let ordered = sort-IsSorted address_leb address_leb_total address_leb_trans ss in
    let loaded = dedup_by_address sorted in
    (
      find_last (starts_by a) loaded,
      subst (λ found. IsNearest a found (find_last (starts_by a) loaded))
          (named_symbols-select demangle (file.symbols ++ file.dynamic_symbols))
          (Perm-IsNearest a sorted ss _ (Perm.symm (sort-perm address_leb ss)) (
            dedup-IsNearest a sorted _
              (find_last-IsNearest a loaded (dedup-IsSorted sorted ordered)))),
      find-name_of a loaded,
    )
