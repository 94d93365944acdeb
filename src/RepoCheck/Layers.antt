-- ===== src/RepoCheck/Layers.antt =====
-- tools/repo-check/src/main.rs: `dependency_layers`. What serde_json makes of the metadata of cargo is a
-- parameter.
pub mod Exact
use slice.Base.{
  ℕ, ◌≡◌, Bool, true, false, not, ◌&&◌, ◌||◌, Option, none, some, List, [], ◌∷◌, ◌++◌, map, any,
  select, if◌then◌else◌, Result, ok, err, or_fail, ◌>>=◌, ◌>>◌, guard, for_each,
}
use slice.Data.Text.{Text, codes, text_eq, compare_text}
use slice.Data.Sort.{sort}
use Prim.Native.Nat.{Ordering}

-- `Value::get`, `Value::as_str` and `Value::as_array`.
pub record Json {ℓ} (Value : Type ℓ) : Type ℓ where
  pub get : Text → Value → Option Value
  pub as_str : Value → Option Text
  pub as_array : Value → Option (List Value)

pub data LayerError : Type 0 where
  no_packages no_members no_id no_name : LayerError
  no_dependencies : Text → LayerError
  missing_package : Text → LayerError
  boundary_violation : (crate_name : Text) (allowed actual : List Text) → LayerError

abbrev pub contains_name : List Text → Text → Bool
contains_name names name = any (text_eq name) names

-- Equality of two sets, each given by a list of its elements.
abbrev pub all_in : List Text → List Text → Bool
all_in [] ys = true
all_in (x ∷ xs) ys = contains_name ys x && all_in xs ys

abbrev pub same_set : List Text → List Text → Bool
same_set xs ys = all_in xs ys && all_in ys xs

abbrev pub own_packages : List Text
own_packages =
    codes "slice-core"
    ∷ codes "slice-capture"
    ∷ codes "slice-collector"
    ∷ codes "slice-render"
    ∷ codes "slice-ebpf"
    ∷ codes "slice-cli"
    ∷ codes "repo-check"
    ∷ []

-- The dependencies that each package must have.
abbrev pub expected_layers : List (Text × List Text)
expected_layers =
    (codes "slice-core", [])
    ∷ (codes "slice-capture", codes "slice-core" ∷ [])
    ∷ (codes "slice-collector", codes "slice-core" ∷ [])
    ∷ (codes "slice-render", codes "slice-core" ∷ [])
    ∷ (
      codes "slice-ebpf",
      codes "slice-capture" ∷ codes "slice-core" ∷ codes "slice-collector" ∷ [],
    )
    ∷ (
      codes "slice-cli",
      codes "slice-core" ∷ codes "slice-capture" ∷ codes "slice-ebpf" ∷ codes "slice-render" ∷ [],
    )
    ∷ (codes "repo-check", [])
    ∷ []

-- `BTreeMap::get` where the last insertion under a name stands first.
abbrev pub layer_of : Text → List (Text × List Text) → Option (List Text)
layer_of name [] = none
layer_of name ((other, dependencies) ∷ names) =
    if text_eq other name then some dependencies else layer_of name names

-- One package against what is expected of it.
unfoldable pub check_layer :
    List (Text × List Text) → Text × List Text → Result LayerError (Unit {0})
check_layer names (crate_name, allowed) = do
  actual ← or_fail (layer_of crate_name names) (missing_package crate_name)
  guard (same_set actual allowed) (boundary_violation crate_name allowed actual)

-- The error is for the first package in the order of the names in which `BTreeMap` gives them.
abbrev package_leb : Text × List Text → Text × List Text → Bool
package_leb (a, allowed) (b, other) = elim (compare_text a b) [
  | Ordering.lt ↦ true
  | Ordering.eq ↦ true
  | Ordering.gt ↦ false
]

unfoldable pub in_name_order : List (Text × List Text)
in_name_order = sort package_leb expected_layers

unfoldable pub check_layers : List (Text × List Text) → Result LayerError (Unit {0})
check_layers names = for_each in_name_order (check_layer names)

module _ {ℓ} {Value : Type ℓ} (json : Json Value) where
  abbrev bind {κ μ} : {A : Type κ} {B : Type μ} → Option A → (A → Option B) → Option B
  bind none f = none
  bind (some x) f = f x

  -- `filter_map`.
  abbrev keep_some {κ} : {A : Type κ} → (Value → Option A) → List Value → List A
  keep_some f [] = []
  keep_some f (v ∷ vs) = elim (f v) [ none ↦ keep_some f vs | some x ↦ x ∷ keep_some f vs ]

  abbrev name_in : Value → Option Text
  name_in v = bind (json.get (codes "name") v) json.as_str

  unfoldable pub dependencies_of : Text → Value → Result LayerError (List Text)
  dependencies_of name crate_value = do
    dependencies ←
        or_fail (bind (json.get (codes "dependencies") crate_value) json.as_array)
          (no_dependencies name)
    ok (select (contains_name own_packages) (keep_some name_in dependencies))

  -- One round of the loop over the packages.
  unfoldable pub add_package :
      (members : List Text)
      → Value
      → List (Text × List Text)
      → Result LayerError (List (Text × List Text))
  add_package members crate_value names = do
    id ← or_fail (bind (json.get (codes "id") crate_value) json.as_str) no_id
    if contains_name members id
        then (do
          name ← or_fail (name_in crate_value) no_name
          dependencies ← dependencies_of name crate_value
          ok ((name, dependencies) ∷ names))
        else ok names

  unfoldable pub add_packages :
      (members : List Text)
      → List Value
      → List (Text × List Text)
      → Result LayerError (List (Text × List Text))
  add_packages members [] names = ok names
  add_packages members (crate_value ∷ packages) names =
      add_package members crate_value names >>= add_packages members packages

  -- The members of the workspace, each with its dependencies among the own crates.
  unfoldable pub layers_of : Value → Result LayerError (List (Text × List Text))
  layers_of metadata = do
    packages ← or_fail (bind (json.get (codes "packages") metadata) json.as_array) no_packages
    members ←
        or_fail (bind (json.get (codes "workspace_members") metadata) json.as_array) no_members
    add_packages (keep_some json.as_str members) packages []

  unfoldable pub dependency_layers : Value → Result LayerError (Unit {0})
  dependency_layers metadata = layers_of metadata >>= check_layers
