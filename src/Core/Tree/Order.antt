-- ===== src/Core/Tree/Order.antt =====
-- The children of every node stand in the order of their labels, and so the finished tree has one
-- child for each label.
use Prim.Native.Nat.{Ordering}
use slice.Base.{
  ℕ, ◌≡◌, refl, sym, ◌∙◌, subst, Option, none, some, List, [], ◌∷◌, arith, if◌then◌else◌,
  Option-cases, inl, inr,
}
use slice.Core.Profile.{Frame}
use slice.Core.Tree.{
  FlameNode, flame_node, FlameNodes, nil, cons, empty, TreeBuilder, builder, Children, leaf, child,
  default, get_child, entry, insert, finish, finish_all,
}
use slice.Core.Tree.Values.{value_at}
use slice.Data.Text.{
  Text, text_eq, text_eq_self, compare_text, compare_text→≡, compare_text-lt_trans,
  compare_text-gt_lt, text_eq-false, Ordering-cases,
}

some_eq {ℓ} : {A : Type ℓ} {a b : A} → some a ≡ some b → a ≡ b
some_eq h = cc

lt-ne-eq : Ordering.lt ≡ Ordering.eq → ⊥
lt-ne-eq e = cc

gt-ne-eq : Ordering.gt ≡ Ordering.eq → ⊥
gt-ne-eq e = cc

-- The label comes before those of all children.
abbrev pub IsAbove : Text → Children → Type 0
IsAbove l leaf = Unit
IsAbove l (child m t cs) = (compare_text l m ≡ Ordering.lt) × IsAbove l cs

mutual
  pub IsOrdered : TreeBuilder → Type 0
  IsOrdered (builder v cs) = AreOrdered cs

  pub AreOrdered : Children → Type 0
  AreOrdered leaf = Unit
  AreOrdered (child l t cs) = IsAbove l cs × IsOrdered t × AreOrdered cs

-- The first child of a name, and the value at a path of names below a node of the finished tree.
unfoldable pub get_node : Text → FlameNodes → Option FlameNode
get_node l nil = none
get_node l (cons (flame_node n v ns) rest) =
    if text_eq n l then some (flame_node n v ns) else get_node l rest

unfoldable pub flame_at : List Text → FlameNode → ℕ
flame_at [] (flame_node n v ns) = v
flame_at (l ∷ path) (flame_node n v ns) = elim (get_node l ns) [
  | none ↦ 0
  | some c ↦ flame_at path c
]

IsAbove-trans :
    (l m : Text) (cs : Children) → compare_text l m ≡ Ordering.lt → IsAbove m cs → IsAbove l cs
IsAbove-trans l m leaf h a = tt
IsAbove-trans l m (child k t cs) h a =
    (compare_text-lt_trans l m k h a.0, IsAbove-trans l m cs h a.1)

IsAbove-entry :
    (l m : Text) (f : TreeBuilder → TreeBuilder) (cs : Children)
    → compare_text l m ≡ Ordering.lt
    → IsAbove l cs
    → IsAbove l (entry m f cs)
unfolding entry
IsAbove-entry l m f leaf h a = (h, tt)
IsAbove-entry l m f (child k t cs) h a = ground (arith, IsAbove-entry l m f cs h a.1)

entry-AreOrdered :
    (l : Text) (f : TreeBuilder → TreeBuilder) (cs : Children)
    → ((t : TreeBuilder) → IsOrdered t → IsOrdered (f t))
    → AreOrdered cs
    → AreOrdered (entry l f cs)
unfolding entry IsOrdered
entry-AreOrdered l f leaf k o = (tt, k default tt, tt)
entry-AreOrdered l f (child m t cs) k (a, ot, ocs) = ground (
  arith,
  k default tt,
  k t ot,
  entry-AreOrdered l f cs k ocs,
  IsAbove-trans l m cs,
  IsAbove-entry m l f cs,
  compare_text-gt_lt l m,
)

pub insert-IsOrdered :
    (frames : List Frame) (w : ℕ) (t : TreeBuilder) → IsOrdered t → IsOrdered (insert frames w t)
unfolding insert IsOrdered
insert-IsOrdered [] w (builder v cs) o = o
insert-IsOrdered (frame ∷ frames) w (builder v cs) o =
    entry-AreOrdered frame.label (insert frames w) cs (λ t. insert-IsOrdered frames w t) o

get_child-IsOrdered :
    (l : Text) (cs : Children) (t : TreeBuilder)
    → AreOrdered cs
    → get_child l cs ≡ some t
    → IsOrdered t
unfolding get_child IsOrdered
get_child-IsOrdered l leaf t o h = cc
get_child-IsOrdered l (child m u cs) t (a, ou, ocs) h = elim (Ordering-cases (compare_text l m)) [
  | inl less ↦ absurd (ground arith)
  | inr (inl same) ↦ subst IsOrdered (some_eq (ground arith)) ou
  | inr (inr more) ↦ get_child-IsOrdered l cs t ocs (ground arith)
]

get_node-absent : (l : Text) (cs : Children) → IsAbove l cs → get_node l (finish_all cs) ≡ none
unfolding get_node finish
get_node-absent l leaf a = refl
get_node-absent l (child m (builder v ds) cs) a =
    let other = text_eq-false l m (λ e. lt-ne-eq (sym a.0 ∙ e)) in
    rw other (get_node-absent l cs a.1)

-- In an ordered list of children the first of a name is the one that the search finds.
get_node-finish_all :
    (l : Text) (cs : Children)
    → AreOrdered cs
    → get_node l (finish_all cs)
      ≡ elim (get_child l cs) [ none ↦ none | some t ↦ some (finish t l) ]
unfolding get_node get_child IsOrdered finish
get_node-finish_all l leaf o = refl
get_node-finish_all l (child m (builder v ds) cs) (a, ot, ocs) =
    elim (Ordering-cases (compare_text l m)) [
      | inl less ↦
          rw (less, text_eq-false l m (λ e. lt-ne-eq (sym less ∙ e)))
            (get_node-absent l cs (IsAbove-trans l m cs less a))
      | inr (inl same) ↦ let e = compare_text→≡ l m same in rw (same, e, text_eq_self m) refl
      | inr (inr more) ↦
          rw (more, text_eq-false l m (λ e. gt-ne-eq (sym more ∙ e))) (get_node-finish_all l cs ocs)
    ]

-- The finished tree has at each path the value that the builder has there.
pub flame_at-finish :
    (path : List Text) (t : TreeBuilder) (name : Text)
    → IsOrdered t
    → flame_at path (finish t name) ≡ value_at path t
unfolding flame_at value_at finish IsOrdered
flame_at-finish [] (builder v cs) name o = refl
flame_at-finish (l ∷ path) (builder v cs) name o = elim (Option-cases (get_child l cs)) [
  | inl absent ↦ rw (get_node-finish_all l cs o, absent, flame_at, value_at) refl
  | inr (t, found) ↦
      rw (get_node-finish_all l cs o, found, flame_at, value_at)
        (flame_at-finish path t l (get_child-IsOrdered l cs t o found))
]

pub default-IsOrdered : IsOrdered default
unfolding IsOrdered
default-IsOrdered = tt

pub flame_at-empty : (path : List Text) → flame_at path empty ≡ 0
unfolding flame_at get_node
flame_at-empty [] = refl
flame_at-empty (l ∷ path) = refl
