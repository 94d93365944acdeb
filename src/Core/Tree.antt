-- ===== src/Core/Tree.antt =====
-- crates/slice-core/src/lib.rs: `TreeBuilder` and `FlameNode`. The `BTreeMap` of children is a list
-- that is searched and filled in the order of its keys, as the map does.
pub mod Order
pub mod Values
use Prim.Native.Nat.{Ordering}
use slice.Base.{ℕ, Option, none, some, List, [], ◌∷◌}
use slice.Core.Profile.{Frame}
use slice.Data.Text.{Text, codes, compare_text}
use slice.Data.Words.{sat_add}

mutual
  pub data FlameNode : Type 0 where
    flame_node : (name : Text) (value_ns : ℕ) (children : FlameNodes) → FlameNode

  pub data FlameNodes : Type 0 where
    nil : FlameNodes
    cons : FlameNode → FlameNodes → FlameNodes

-- `FlameNode::empty`.
abbrev pub empty : FlameNode
empty = flame_node (codes "root") 0 nil

mutual
  pub data TreeBuilder : Type 0 where
    builder : (value_ns : ℕ) (children : Children) → TreeBuilder

  pub data Children : Type 0 where
    leaf : Children
    child : (label : Text) → TreeBuilder → Children → Children

-- `TreeBuilder::default`.
abbrev pub default : TreeBuilder
default = builder 0 leaf

abbrev pub value_ns : TreeBuilder → ℕ
value_ns (builder v cs) = v

abbrev pub children : TreeBuilder → Children
children (builder v cs) = cs

-- `children.get(label)`.
unfoldable pub get_child : Text → Children → Option TreeBuilder
get_child label leaf = none
get_child label (child l t cs) =
    let rest = get_child label cs in
    elim (compare_text label l) [ Ordering.lt ↦ none | Ordering.eq ↦ some t | Ordering.gt ↦ rest ]

-- `children.entry(label).or_default()`, updated by `f`.
unfoldable pub entry : Text → (TreeBuilder → TreeBuilder) → Children → Children
entry label f leaf = child label (f default) leaf
entry label f (child l t cs) =
    let rest = entry label f cs in
    elim (compare_text label l) [
      | Ordering.lt ↦ child label (f default) (child l t cs)
      | Ordering.eq ↦ child l (f t) cs
      | Ordering.gt ↦ child l t rest
    ]

unfoldable pub insert : List Frame → ℕ → TreeBuilder → TreeBuilder
insert [] weight_ns t = builder (sat_add (value_ns t) weight_ns) (children t)
insert (frame ∷ rest) weight_ns t =
    builder (sat_add (value_ns t) weight_ns)
      (entry frame.label (insert rest weight_ns) (children t))

unfoldable mutual
  pub finish : TreeBuilder → Text → FlameNode
  finish (builder v cs) name = flame_node name v (finish_all cs)

  pub finish_all : Children → FlameNodes
  finish_all leaf = nil
  finish_all (child l t cs) = cons (finish t l) (finish_all cs)
