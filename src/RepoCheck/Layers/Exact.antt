-- ===== src/RepoCheck/Layers/Exact.antt =====
-- tools/repo-check/src/main.rs: what `dependency_layers` accepts.
use mathlib.Core.List.{mem-cons, mem-cons_of_mem, not-mem-nil}
use mathlib.Core.Logic.Or
use mathlib.Core.Bool.{false≢true}
use slice.Base.{
  ◌∙◌, refl, false, map, ok-injective, mem-select, ◌≡◌, ◌↔◌, sym, subst, true, some, List, [], ◌∷◌,
  All, Mem, Bool-cases, inl, inr, ok, or_fail, guard→true, &&-eq-true, >>=-eq-ok, for_each-All,
  All-map, or_fail-eq-ok,
}
use slice.Data.Sort.{sort, insert}
use slice.Data.Text.{Text, text_eq, text_eq→≡, text_eq_self, codes}
use slice.RepoCheck.Layers.{
  add_package, add_packages, dependencies_of, name_in, keep_some, bind, no_id, no_name, no_packages,
  no_members, no_dependencies, own_packages, Json, contains_name, all_in, same_set, layer_of,
  check_layer, check_layers, in_name_order, expected_layers, missing_package, dependency_layers,
  layers_of,
}

contains_name-Mem :
    (names : List Text) (name : Text) → contains_name names name ≡ true → Mem name names
contains_name-Mem [] name h = cc
contains_name-Mem (x ∷ xs) name h = elim (Bool-cases (text_eq name x)) [
  | inl e ↦ mem-cons.1 (Or.inl (text_eq→≡ name x e))
  | inr e ↦ mem-cons_of_mem x (contains_name-Mem xs name (rw e at h))
]

all_in-Mem : (xs ys : List Text) → all_in xs ys ≡ true → (name : Text) → Mem name xs → Mem name ys
all_in-Mem [] ys h name m = absurd (not-mem-nil m)
all_in-Mem (x ∷ xs) ys h name m =
    let (here, later) = &&-eq-true (contains_name ys x) (all_in xs ys) h in
    Or.elim (hlevel) (mem-cons.0 m)
      (λ same. subst (λ z. Mem z ys) (sym same) (contains_name-Mem ys x here))
      (all_in-Mem xs ys later name)

Mem-contains_name :
    (names : List Text) (name : Text) → Mem name names → contains_name names name ≡ true
Mem-contains_name [] name m = absurd (not-mem-nil m)
Mem-contains_name (x ∷ xs) name m = elim (Bool-cases (text_eq name x)) [
  | inl e ↦ rw e refl
  | inr e ↦ rw e (
      Or.elim (hlevel) (mem-cons.0 m)
        (λ same. absurd (
          let self = text_eq_self name in
          let other = subst (λ z. text_eq name z ≡ false) (sym same) e in
          false≢true (sym other ∙ self)))
        (Mem-contains_name xs name))
]

module _ {Value : Type 0} (json : Json Value) where
  -- A package of the metadata that is a member of the workspace, with what it depends on.
  pub record IsMember (packages members : List Value) (name : Text) (needed : List Text)
      : Type 0 where
    pub crate_value : Value
    pub among : Mem crate_value packages
    pub id : Text
    pub identified : bind json (json.get (codes "id") crate_value) json.as_str ≡ some id
    pub member : Mem id (keep_some json json.as_str members)
    pub named : bind json (json.get (codes "name") crate_value) json.as_str ≡ some name
    pub dependencies : List Value
    pub depends :
        bind json (json.get (codes "dependencies") crate_value) json.as_array ≡ some dependencies
    pub needs :
        (own : Text)
        → Mem own (map (λ (crate_name, allowed). crate_name) expected_layers)
        → Mem own (keep_some json (name_in json) dependencies) ↔ Mem own needed

  add_package-IsMember :
      (packages members : List Value) (v : Value) (names names' : List (Text × List Text))
      → Mem v packages
      → add_package json (keep_some json json.as_str members) v names ≡ ok names'
      → All (λ (name, needed). IsMember packages members name needed) names
      → All (λ (name, needed). IsMember packages members name needed) names'
  unfolding add_package dependencies_of
  add_package-IsMember packages members v names names' among h a =
      let (id, identified, h1) =
        >>=-eq-ok (or_fail (bind json (json.get (codes "id") v) json.as_str) no_id) _ h in
      elim (Bool-cases (contains_name (keep_some json json.as_str members) id)) [
        | inr e ↦
            let h2 = rw e at h1 in
            subst (All (λ (name, needed). IsMember packages members name needed)) (ok-injective h2)
              a
        | inl e ↦
            let h2 = rw e at h1 in
            let (name, named, h3) = >>=-eq-ok (or_fail (name_in json v) no_name) _ h2 in
            let (needed, depends, h4) = >>=-eq-ok (dependencies_of json name v) _ h3 in
            let (ds, listed, h5) =
              >>=-eq-ok
                (or_fail (bind json (json.get (codes "dependencies") v) json.as_array)
                  (no_dependencies name))
                _ depends in
            subst (All (λ (name, needed). IsMember packages members name needed)) (ok-injective h4)
              (
                record {
                  crate_value = v;
                  among = among;
                  id = id;
                  identified = or_fail-eq-ok _ _ identified;
                  member = contains_name-Mem _ id e;
                  named = or_fail-eq-ok _ _ named;
                  dependencies = ds;
                  depends = or_fail-eq-ok _ _ listed;
                  needs = λ own o.
                      let kept = ok-injective h5 in
                      let filtered =
                        mem-select (contains_name own_packages) own
                          (keep_some json (name_in json) ds) in
                      (
                        (λ m.
                            subst (Mem own) kept
                              (filtered.1 (m, Mem-contains_name own_packages own o))),
                        (λ m. (filtered.0 (subst (Mem own) (sym kept) m)).0),
                      );
                },
                a,
              )
      ]

  add_packages-IsMember :
      (packages members rest : List Value) (names names' : List (Text × List Text))
      → ((v : Value) → Mem v rest → Mem v packages)
      → add_packages json (keep_some json json.as_str members) rest names ≡ ok names'
      → All (λ (name, needed). IsMember packages members name needed) names
      → All (λ (name, needed). IsMember packages members name needed) names'
  unfolding add_packages
  add_packages-IsMember packages members [] names names' within h a =
      subst (All (λ (name, needed). IsMember packages members name needed)) (ok-injective h) a
  add_packages-IsMember packages members (v ∷ rest) names names' within h a =
      let (names1, one, h') =
        >>=-eq-ok (add_package json (keep_some json json.as_str members) v names) _ h in
      add_packages-IsMember packages members rest names1 names'
        (λ w m. within w (mem-cons_of_mem v m)) h'
        (add_package-IsMember packages members v names names1 (within v (mem-cons.1 (Or.inl refl)))
          one a)

-- Under the name is recorded a package, and its dependencies among the crates are exactly the allowed ones.
record IsLayered (names : List (Text × List Text)) (crate_name : Text) (allowed : List Text)
    : Type 0 where
  pub actual : List Text
  pub known : layer_of crate_name names ≡ some actual
  pub exact : (name : Text) → Mem name actual ↔ Mem name allowed

check_layer-IsLayered :
    (names : List (Text × List Text)) (crate_name : Text) (allowed : List Text)
    → check_layer names (crate_name, allowed) ≡ ok tt
    → IsLayered names crate_name allowed
unfolding check_layer
check_layer-IsLayered names crate_name allowed h =
    let (actual, e, passed) =
      >>=-eq-ok (or_fail (layer_of crate_name names) (missing_package crate_name)) _ h in
    let same = guard→true (same_set actual allowed) _ passed in
    let (there, back) = &&-eq-true (all_in actual allowed) (all_in allowed actual) same in
    record {
      actual = actual;
      known = or_fail-eq-ok (layer_of crate_name names) _ e;
      exact = λ name. (all_in-Mem actual allowed there name, all_in-Mem allowed actual back name);
    }

check_layers-IsLayered :
    (names : List (Text × List Text))
    → check_layers names ≡ ok tt
    → All (λ (crate_name, allowed). IsLayered names crate_name allowed) expected_layers
unfolding check_layers in_name_order sort insert
check_layers-IsLayered names h =
    let a =
      All-map _ _ (λ (crate_name, allowed) e. check_layer-IsLayered names crate_name allowed e)
        in_name_order (for_each-All (check_layer names) in_name_order h) in
    -- In the order of the names: repo-check, capture, cli, collector, core, ebpf, render.
    let b = a.1 in
    let c = b.1 in
    let d = c.1 in
    let e = d.1 in let f = e.1 in let g = f.1 in (e.0, (b.0, (d.0, (g.0, (f.0, (c.0, (a.0, tt)))))))

-- What layer_of finds has been recorded.
layer_of-All :
    (P : Text → List Text → Type 0) (names : List (Text × List Text)) (name : Text)
    (actual : List Text)
    → All (λ (n, needed). P n needed) names
    → layer_of name names ≡ some actual
    → P name actual
layer_of-All P [] name actual a h = cc
layer_of-All P ((n, needed) ∷ names) name actual a h = elim (Bool-cases (text_eq n name)) [
  | inl e ↦
      let h' : some needed ≡ some actual = rw e at h in
      let same : needed ≡ actual = cc in
      subst (λ x. P x actual) (text_eq→≡ n name e) (subst (P n) same a.0)
  | inr e ↦ layer_of-All P names name actual a.1 (rw e at h)
]

-- The workspace of the metadata has a member of the name, which needs exactly the allowed ones of the
-- own crates, whatever else it needs.
pub record HasLayer {Value : Type 0} (json : Json Value) (metadata : Value) (crate_name : Text)
    (allowed : List Text) : Type 0 where
  pub packages : List Value
  pub listed : bind json (json.get (codes "packages") metadata) json.as_array ≡ some packages
  pub members : List Value
  pub workspace :
      bind json (json.get (codes "workspace_members") metadata) json.as_array ≡ some members
  pub found : IsMember json packages members crate_name allowed

IsLayered-IsMember :
    {Value : Type 0} (json : Json Value) (packages members : List Value)
    (names : List (Text × List Text)) (crate_name : Text) (allowed : List Text)
    → All (λ (name, needed). IsMember json packages members name needed) names
    → IsLayered names crate_name allowed
    → IsMember json packages members crate_name allowed
IsLayered-IsMember json packages members names crate_name allowed a layered =
    let m =
      layer_of-All (IsMember json packages members) names crate_name layered.actual a
        layered.known in
    record {
      crate_value = m.crate_value;
      among = m.among;
      id = m.id;
      identified = m.identified;
      member = m.member;
      named = m.named;
      dependencies = m.dependencies;
      depends = m.depends;
      needs = λ own o. (
        λ d. (layered.exact own).0 ((m.needs own o).0 d),
        λ d. (m.needs own o).1 ((layered.exact own).1 d),
      );
    }

-- If the layers are accepted, then for each expected name the metadata lists a package of that name
-- whose id is one of the members of the workspace, and of the crates that have a layer its
-- dependencies name exactly the allowed ones.
pub dependency_layers-HasLayer :
    {Value : Type 0} (json : Json Value) (metadata : Value)
    → dependency_layers json metadata ≡ ok tt
    → All (λ (crate_name, allowed). HasLayer json metadata crate_name allowed) expected_layers
unfolding dependency_layers layers_of
dependency_layers-HasLayer json metadata h =
    let (names, read, passed) = >>=-eq-ok (layers_of json metadata) check_layers h in
    let (packages, listed, h1) =
      >>=-eq-ok
        (or_fail (bind json (json.get (codes "packages") metadata) json.as_array) no_packages) _
        read in
    let (members, workspace, h2) =
      >>=-eq-ok
        (or_fail (bind json (json.get (codes "workspace_members") metadata) json.as_array)
          no_members)
        _ h1 in
    let from = add_packages-IsMember json packages members packages [] names (λ v m. m) h2 tt in
    All-map _ (λ (crate_name, allowed). HasLayer json metadata crate_name allowed)
      (λ (crate_name, allowed) layered. record {
        packages = packages;
        listed = or_fail-eq-ok _ _ listed;
        members = members;
        workspace = or_fail-eq-ok _ _ workspace;
        found = IsLayered-IsMember json packages members names crate_name allowed from layered;
      })
      expected_layers (check_layers-IsLayered names passed)
