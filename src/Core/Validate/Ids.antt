-- ===== src/Core/Validate/Ids.antt =====
-- `unique_u32_ids` and `unique_u64_ids`: they accept exactly the lists without duplicates, and
-- return the set of their elements.
use mathlib.Core.List.{Nodup-cons, Nodup-nil}
use mathlib.Core.Bool.{false≢true}
use slice.Base.{
  ℕ, ◌≡◌, refl, true, false, ◌||◌, List, [], ◌∷◌, Nodup, Mem, contains, Mem→contains, ¬Mem→contains,
  ok, arith, Bool-cases, inl, inr, sym, ◌∙◌,
}
use slice.Core.Validate.{unique_ids, unique_ids_from}
use slice.Data.Text.{Text}

-- The elements of the result are those of `seen` and of `ids`.
unique_ids_from-contains :
    (seen ids : List ℕ) (kind : Text) (s : List ℕ) (x : ℕ)
    → unique_ids_from seen ids kind ≡ ok s
    → contains x s ≡ (contains x seen || contains x ids)
unfolding unique_ids_from
unique_ids_from-contains seen [] kind s x h = ground arith
unique_ids_from-contains seen (id ∷ ids) kind s x h =
    ground (arith, unique_ids_from-contains (id ∷ seen) ids kind s x)

pub unique_ids-contains :
    (ids : List ℕ) (kind : Text) (s : List ℕ) (x : ℕ)
    → unique_ids ids kind ≡ ok s
    → contains x s ≡ contains x ids
unfolding unique_ids
unique_ids-contains ids kind s x h = unique_ids_from-contains [] ids kind s x h

-- The ids that remain are distinct, and none of them has been seen.
unique_ids_from-Nodup :
    (seen ids : List ℕ) (kind : Text) (s : List ℕ)
    → unique_ids_from seen ids kind ≡ ok s
    → Nodup ids × ((x : ℕ) → contains x seen ≡ true → contains x ids ≡ false)
unfolding unique_ids_from
unique_ids_from-Nodup seen [] kind s h = (Nodup-nil, λ x m. refl)
unique_ids_from-Nodup seen (id ∷ ids) kind s h =
    let rest = unique_ids_from-Nodup (id ∷ seen) ids kind s (ground arith) in
    let fresh : contains id ids ≡ false = rest.1 id (ground arith) in
    let not_mem : ¬ Mem id ids = λ m. false≢true (sym fresh ∙ Mem→contains id ids m) in
    (
      Nodup-cons.1 (not_mem, rest.0),
      λ x m. let later = rest.1 x (ground arith) in ground (arith, fresh, later),
    )

pub unique_ids-Nodup :
    (ids : List ℕ) (kind : Text) (s : List ℕ) → unique_ids ids kind ≡ ok s → Nodup ids
unfolding unique_ids
unique_ids-Nodup ids kind s h = (unique_ids_from-Nodup [] ids kind s h).0

unique_ids_from-ok :
    (seen ids : List ℕ) (kind : Text)
    → Nodup ids
    → ((x : ℕ) → contains x seen ≡ true → contains x ids ≡ false)
    → (s : List ℕ) × (unique_ids_from seen ids kind ≡ ok s)
unfolding unique_ids_from
unique_ids_from-ok seen [] kind n apart = (seen, refl)
unique_ids_from-ok seen (id ∷ ids) kind n apart =
    let parts = Nodup-cons.0 n in
    let new : contains id ids ≡ false = ¬Mem→contains id ids parts.0 in
    elim (Bool-cases (contains id seen)) [
      | inl old ↦ absurd (let e = apart id old in ground arith)
      | inr unseen ↦ rw unseen (
          unique_ids_from-ok (id ∷ seen) ids kind parts.1 (λ x m.
            elim (Bool-cases (contains x seen)) [
              | inl old ↦ let e = apart x old in ground arith
              | inr u ↦ ground arith
            ]))
    ]

pub unique_ids-ok :
    (ids : List ℕ) (kind : Text) → Nodup ids → (s : List ℕ) × (unique_ids ids kind ≡ ok s)
unfolding unique_ids
unique_ids-ok ids kind n = unique_ids_from-ok [] ids kind n (λ x m. cc)
