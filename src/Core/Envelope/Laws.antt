-- ===== src/Core/Envelope/Laws.antt =====
-- The file format as a round trip, and the bounds of a capture.
use mathlib.Core.List.{mem-cons_of_mem, mem-cons_self}
use slice.Base.{
  ℕ, ◌≡◌, ◌≤◌, ◌⊎◌, inl, inr, refl, List, [], ◌∷◌, ◌++◌, Mem, min, max, some, ok, err, arith,
  >>=-eq-ok, >>-eq-ok, or_fail, map_err, All, Result, ==_iff, ok-injective, sym, subst, ap, ◌∙◌,
  Option-cases,
}
use slice.Core.Envelope.{
  Codec, IsFaithful, to_bytes, from_bytes, accept, capture_bounds, widen, file_magic, invalid_magic,
  decode, parse, io, json,
}
use slice.Core.Profile.{Profile, Invocation, TimeRange}
use slice.Core.Validate.{validate}
use slice.Core.Validate.Decides.{validate-iff-IsWellFormed}
use slice.Core.Validate.Spec.{IsWellFormed}
use slice.Data.Text.{strip_prefix}

accept-ok : (p : Profile) → IsWellFormed p → accept p ≡ ok p
unfolding accept
accept-ok p w = rw ((==_iff p.format_version 1).1 w.version, (validate-iff-IsWellFormed p).1 w) refl

map_err-eq-ok {ℓ κ μ} :
    {E : Type ℓ} {F : Type κ} {A : Type μ} {a : A} (f : E → F) (m : Result E A)
    → map_err f m ≡ ok a
    → m ≡ ok a
map_err-eq-ok f (ok x) h = ap ok (ok-injective h)
map_err-eq-ok f (err e) h = cc

accept-IsWellFormed : (p q : Profile) → accept p ≡ ok q → IsWellFormed q
unfolding accept
accept-IsWellFormed p q h =
    let (version, h') = >>-eq-ok _ _ h in
    let (valid, same) = >>-eq-ok _ _ h' in
    subst IsWellFormed (ok-injective same)
      ((validate-iff-IsWellFormed p).0 (map_err-eq-ok _ (validate p) valid))

module _ (codec : Codec) where
  -- A profile that is read from bytes, whatever they are, is well formed.
  pub from_bytes-IsWellFormed :
      (bytes : List ℕ) (p : Profile) → from_bytes codec bytes ≡ ok p → IsWellFormed p
  unfolding from_bytes decode parse
  from_bytes-IsWellFormed bytes p h =
      let (payload, e1, h1) =
        >>=-eq-ok (or_fail (strip_prefix file_magic bytes) invalid_magic) (decode codec) h in
      let (text, e2, h2) = >>=-eq-ok (or_fail (codec.decode_all payload) io) (parse codec) h1 in
      let (read, e3, h3) = >>=-eq-ok (or_fail (codec.from_slice text) json) accept h2 in
      accept-IsWellFormed read p h3

  to_bytes-parts :
      (p : Profile) (bytes : List ℕ)
      → to_bytes codec p ≡ ok bytes
      → (text compressed : List ℕ) × (codec.to_vec p ≡ some text)
        × (codec.encode_all text ≡ some compressed)
        × (file_magic ++ compressed ≡ bytes)
  unfolding to_bytes
  to_bytes-parts p bytes h = elim (Option-cases (codec.to_vec p)) [
    | inl e ↦ absurd (let h' = rw e at h in cc)
    | inr (text, e) ↦ elim (Option-cases (codec.encode_all text)) [
      | inl e' ↦ absurd (let h' = rw (e, e') at h in cc)
      | inr (compressed, e') ↦
          (text, compressed, e, e', let h' = rw (e, e') at h in ok-injective h')
    ]
  ]

  -- A well-formed profile that was written is read back unchanged, if the two libraries read back
  -- what they wrote.
  pub from_bytes-to_bytes :
      IsFaithful codec
      → (p : Profile) (bytes : List ℕ) → IsWellFormed p
      → to_bytes codec p ≡ ok bytes
      → from_bytes codec bytes ≡ ok p
  unfolding from_bytes decode parse
  from_bytes-to_bytes f p bytes w h =
      let (text, compressed, e1, e2, same) = to_bytes-parts p bytes h in
      rw (sym same, f.decompresses text compressed e2, f.reads_json p text e1) (accept-ok p w)

-- The bounds enclose every invocation, and each of the two is reached.
pub record IsHull (bounds : TimeRange) (is : List Invocation) : Type 0 where
  pub encloses : All (λ i. (bounds.from_ns ≤ i.start_ns) × (i.end_ns ≤ bounds.to_ns)) is
  pub reaches_from : (i : Invocation) × Mem i is × (i.start_ns ≡ bounds.from_ns)
  pub reaches_to : (i : Invocation) × Mem i is × (i.end_ns ≡ bounds.to_ns)

-- What the loop adds to the bounds: it widens them, over all that it has seen, and no further.
widen-encloses :
    (b : TimeRange) (is : List Invocation)
    → ((widen b is).from_ns ≤ b.from_ns)
      × (b.to_ns ≤ (widen b is).to_ns)
      × All (λ i. ((widen b is).from_ns ≤ i.start_ns) × (i.end_ns ≤ (widen b is).to_ns)) is
widen-encloses b [] = (omega arith, omega arith, tt)
widen-encloses b (i ∷ is) =
    let next : TimeRange = record {
      from_ns = min b.from_ns i.start_ns;
      to_ns = max b.to_ns i.end_ns;
    } in
    let (low, high, rest) = widen-encloses next is in
    (omega (arith, low), omega (arith, high), ((omega (arith, low), omega (arith, high)), rest))

min_cases : (a b : ℕ) → (min a b ≡ a) ⊎ (min a b ≡ b)
min_cases a b = ground arith

max_cases : (a b : ℕ) → (max a b ≡ a) ⊎ (max a b ≡ b)
max_cases a b = ground arith

widen-reaches_from :
    (b : TimeRange) (is : List Invocation)
    → ((widen b is).from_ns ≡ b.from_ns)
      ⊎ ((i : Invocation) × Mem i is × (i.start_ns ≡ (widen b is).from_ns))
widen-reaches_from b [] = inl refl
widen-reaches_from b (i ∷ is) =
    let next : TimeRange = record {
      from_ns = min b.from_ns i.start_ns;
      to_ns = max b.to_ns i.end_ns;
    } in
    elim (widen-reaches_from next is) [
      | inr (j, m, e) ↦ inr (j, mem-cons_of_mem i m, e)
      | inl e ↦ elim (min_cases b.from_ns i.start_ns) [
        | inl l ↦ inl (e ∙ l)
        | inr r ↦ inr (i, mem-cons_self, sym (e ∙ r))
      ]
    ]

widen-reaches_to :
    (b : TimeRange) (is : List Invocation)
    → ((widen b is).to_ns ≡ b.to_ns)
      ⊎ ((i : Invocation) × Mem i is × (i.end_ns ≡ (widen b is).to_ns))
widen-reaches_to b [] = inl refl
widen-reaches_to b (i ∷ is) =
    let next : TimeRange = record {
      from_ns = min b.from_ns i.start_ns;
      to_ns = max b.to_ns i.end_ns;
    } in
    elim (widen-reaches_to next is) [
      | inr (j, m, e) ↦ inr (j, mem-cons_of_mem i m, e)
      | inl e ↦ elim (max_cases b.to_ns i.end_ns) [
        | inl l ↦ inl (e ∙ l)
        | inr r ↦ inr (i, mem-cons_self, sym (e ∙ r))
      ]
    ]

-- A profile with invocations has bounds, which are as wide as its invocations and no wider.
pub capture_bounds-IsHull :
    (i : Invocation) (is : List Invocation)
    → (bounds : TimeRange) × (capture_bounds (i ∷ is) ≡ some bounds) × IsHull bounds (i ∷ is)
unfolding capture_bounds
capture_bounds-IsHull i is =
    let first : TimeRange = record { from_ns = i.start_ns; to_ns = i.end_ns } in
    let (low, high, rest) = widen-encloses first is in
    (
      widen first is,
      refl,
      record {
        encloses = ((low, high), rest);
        reaches_from = elim (widen-reaches_from first is) [
          | inl e ↦ (i, mem-cons_self, sym e)
          | inr (j, m, e) ↦ (j, mem-cons_of_mem i m, e)
        ];
        reaches_to = elim (widen-reaches_to first is) [
          | inl e ↦ (i, mem-cons_self, sym e)
          | inr (j, m, e) ↦ (j, mem-cons_of_mem i m, e)
        ];
      },
    )
