-- ===== src/Tests/Repository.antt =====
-- The checks of the repository, at small trees.
use slice.Base.{
  ◌≡◌, ◌↔◌, refl, Bool, true, Option, none, some, List, [], ◌∷◌, map, All, ok, if◌then◌else◌,
}
use slice.Data.Numerals.{split_once, trim}
use slice.Data.Sort.{sort, insert}
use slice.Data.Text.{Text, codes, text_eq}
use slice.RepoCheck.Boundary.{IsSafeFile, unsafe_boundary_iff}
use slice.RepoCheck.Layers.{
  Json, expected_layers, dependency_layers, layers_of, add_package, add_packages, dependencies_of,
  check_layer, check_layers, in_name_order,
}
use slice.RepoCheck.Layers.Exact.{HasLayer, dependency_layers-HasLayer}
use slice.RepoCheck.Links.Exact.{IsLinked, markdown_links_iff}
use slice.RepoCheck.Links.{targets, after_bracket, markdown_links}
use slice.RepoCheck.Run.{Output}
use slice.RepoCheck.Sources.{unsafe_boundary}
use slice.RepoCheck.Visit.{
  FilePath, Entries, file, folder, done, entry, files_of, are_readable, is_readable,
}

-- Two files of Rust in `crates`.
abbrev crates : Entries
crates =
    entry (codes "slice-ebpf")
      (folder (entry (codes "lib.rs") (file (some (codes "unsafe {}"))) done))
      (entry (codes "main.rs") (file (some (codes "fn unsafely() {}"))) done)

crates_readable : are_readable crates ≡ true
unfolding are_readable is_readable
crates_readable = refl

unsafe_boundary_iff_example :
    (unsafe_boundary (folder crates) ≡ ok tt)
    ↔ All (λ (path, text). IsSafeFile path text) (files_of (codes "crates" ∷ []) crates)
unsafe_boundary_iff_example = unsafe_boundary_iff crates crates_readable

abbrev links_text : Text
links_text = codes "see [a](docs/a.md#top) and [b](<b.md>)"

two_targets : targets 60 links_text ≡ codes "docs/a.md" ∷ codes "b.md" ∷ []
unfolding targets after_bracket split_once trim
two_targets = refl

-- The metadata of a workspace with the expected layers.
data Metadata : Type 0 where
  whole packages members : Metadata
  crate : (name : Text) (dependencies : List Text) → Metadata
  dependencies : List Text → Metadata
  string : Text → Metadata

abbrev get_metadata : Text → Metadata → Option Metadata
get_metadata key whole =
    if text_eq key (codes "packages")
    then some packages
    else if text_eq key (codes "workspace_root")
    then some (string (codes "/repository"))
    else some members
get_metadata key (crate name ds) =
    if text_eq key (codes "dependencies") then some (dependencies ds) else some (string name)
get_metadata key (string name) = some (string name)
get_metadata key _ = none

abbrev metadata_array : Metadata → Option (List Metadata)
metadata_array packages = some (map (λ (name, ds). crate name ds) expected_layers)
metadata_array members = some (map (λ (name, ds). string name) expected_layers)
metadata_array (dependencies ds) = some (map string ds)
metadata_array _ = none

abbrev metadata_string : Metadata → Option Text
metadata_string (string name) = some name
metadata_string _ = none

abbrev metadata_json : Json Metadata
metadata_json = record { get = get_metadata; as_str = metadata_string; as_array = metadata_array }

layers_accepted : dependency_layers metadata_json whole ≡ ok tt
unfolding dependency_layers layers_of add_packages add_package dependencies_of check_layers
    check_layer in_name_order sort insert
layers_accepted = refl

dependency_layers-HasLayer_example :
    All (λ (crate_name, allowed). HasLayer metadata_json whole crate_name allowed) expected_layers
dependency_layers-HasLayer_example = dependency_layers-HasLayer metadata_json whole layers_accepted

abbrev documents : Entries
documents = entry (codes "README.md") (file (some links_text)) done

documents_readable : are_readable documents ≡ true
unfolding are_readable is_readable
documents_readable = refl

-- Only `docs/a.md` is there.
abbrev there : FilePath → Text → Bool
there directory target = text_eq target (codes "docs/a.md")

markdown_links_iff_example :
    (markdown_links there (folder documents) ≡ ok tt)
    ↔ All (λ (path, text). IsLinked there path text) (files_of [] documents)
markdown_links_iff_example = markdown_links_iff there documents documents_readable

abbrev anywhere : FilePath → Text → Bool
anywhere directory target = true

abbrev every_path : Text → Bool
every_path path = true

abbrev pinned_workflows : Entries
pinned_workflows =
    entry (codes "ci.yml")
      (file (some (codes "- uses: actions/checkout@0123456789abcdef0123456789abcdef01234567\n")))
      done

abbrev cargo : Option (Output Metadata)
cargo = some (record { success = true; stdout = some whole })
