-- ===== src/Data/Maps.antt =====
-- `HashMap` with a number for its key, as a list of entries. The order of the entries is no part of
-- what the map promises.
use slice.Base.{ℕ, Option, none, some, List, [], ◌∷◌, map, ◌==◌, if◌then◌else◌}

module _ {ℓ} {V : Type ℓ} where
  -- `map.get(&key)`.
  abbrev pub get : ℕ → List (ℕ × V) → Option V
  get key [] = none
  get key ((k, v) ∷ m) = if k == key then some v else get key m

  -- `map.insert(key, value)`.
  abbrev pub insert : ℕ → V → List (ℕ × V) → List (ℕ × V)
  insert key value [] = (key, value) ∷ []
  insert key value ((k, v) ∷ m) = if k == key then (key, value) ∷ m else (k, v) ∷ insert key value m

  -- What is left after `map.remove(&key)`.
  abbrev pub remove : ℕ → List (ℕ × V) → List (ℕ × V)
  remove key [] = []
  remove key ((k, v) ∷ m) = if k == key then m else (k, v) ∷ remove key m

  -- `map.entry(key).or_insert_with(|| value)`, the entry then updated by `f`.
  abbrev pub update_or_insert : ℕ → V → (V → V) → List (ℕ × V) → List (ℕ × V)
  update_or_insert key value f [] = (key, f value) ∷ []
  update_or_insert key value f ((k, v) ∷ m) =
      if k == key then (k, f v) ∷ m else (k, v) ∷ update_or_insert key value f m

  abbrev pub values : List (ℕ × V) → List V
  values = map λ (k, v). v

  abbrev pub keys : List (ℕ × V) → List ℕ
  keys = map λ (k, v). k
