-- ===== src/Core/Tree/Values.antt =====
-- What the flame tree holds: the value at a path of labels is the total weight of the stacks that
-- begin with that path.
use slice.Base.{
  ℕ, ◌≡◌, refl, Bool, true, false, ◌&&◌, Option, none, some, List, [], ◌∷◌, arith, if◌then◌else◌,
  Option-cases, inl, inr, sym, Bool-cases, ◌∙◌, ap,
}
use slice.Core.Profile.{Frame}
use slice.Core.Tree.{
  TreeBuilder, builder, Children, leaf, child, default, value_ns, children, get_child, entry,
  insert,
}
use slice.Data.Text.{
  Text, text_eq, text_eq→≡, compare_text_self, compare_text-lt_trans, compare_text-ne,
  compare_text-eq_right,
}
use slice.Data.Words.{sat_add}

-- The value at a path of labels below a node; 0 where the tree has no such path.
unfoldable pub value_at : List Text → TreeBuilder → ℕ
value_at [] t = value_ns t
value_at (l ∷ path) t = elim (get_child l (children t)) [ none ↦ 0 | some c ↦ value_at path c ]

abbrev get_or_default : Option TreeBuilder → TreeBuilder
get_or_default none = default
get_or_default (some t) = t

get_child-entry_self :
    (label : Text) (f : TreeBuilder → TreeBuilder) (cs : Children)
    → get_child label (entry label f cs) ≡ some (f (get_or_default (get_child label cs)))
unfolding get_child entry
get_child-entry_self label f leaf = ground (arith, compare_text_self label)
get_child-entry_self label f (child l t cs) =
    ground (arith, compare_text_self label, get_child-entry_self label f cs)

get_child-entry_ne :
    (other label : Text) (f : TreeBuilder → TreeBuilder) (cs : Children)
    → text_eq other label ≡ false
    → get_child other (entry label f cs) ≡ get_child other cs
unfolding get_child entry
get_child-entry_ne other label f leaf h = ground (arith, compare_text-ne other label h)
get_child-entry_ne other label f (child l t cs) h = ground (
  arith,
  compare_text-ne other label h,
  compare_text-lt_trans other label l,
  compare_text-eq_right other label l,
  get_child-entry_ne other label f cs h,
)

-- Does the path lead along the labels of the frames?
unfoldable pub begins_with : List Text → List Frame → Bool
begins_with [] frames = true
begins_with (l ∷ path) [] = false
begins_with (l ∷ path) (frame ∷ frames) = text_eq l frame.label && begins_with path frames

pub value_at-default : (path : List Text) → value_at path default ≡ 0
unfolding value_at get_child
value_at-default [] = refl
value_at-default (l ∷ path) = refl

value_at-get_child :
    (l : Text) (path : List Text) (t : TreeBuilder)
    → value_at (l ∷ path) t ≡ value_at path (get_or_default (get_child l (children t)))
unfolding value_at
value_at-get_child l path t = elim (Option-cases (get_child l (children t))) [
  | inl e ↦ rw (e, value_at) (sym (value_at-default path))
  | inr (c, e) ↦ rw (e, value_at) refl
]

-- A stack that goes through the child `label`.
value_at-entry_self :
    (label : Text) (path : List Text) (v : ℕ) (f : TreeBuilder → TreeBuilder) (cs : Children)
    → value_at (label ∷ path) (builder v (entry label f cs))
      ≡ value_at path (f (get_or_default (get_child label cs)))
value_at-entry_self label path v f cs =
    value_at-get_child label path (builder v (entry label f cs))
    ∙ ap (λ o. value_at path (get_or_default o)) (get_child-entry_self label f cs)

value_at-entry_ne :
    (l label : Text) (path : List Text) (v w : ℕ) (f : TreeBuilder → TreeBuilder) (cs : Children)
    → text_eq l label ≡ false
    → value_at (l ∷ path) (builder v (entry label f cs)) ≡ value_at (l ∷ path) (builder w cs)
unfolding value_at
value_at-entry_ne l label path v w f cs other =
    rw (get_child-entry_ne l label f cs other, value_at) refl

-- Inserting a stack adds its weight along its own path, and nowhere else.
pub value_at-insert :
    (path : List Text) (frames : List Frame) (weight_ns : ℕ) (t : TreeBuilder)
    → value_at path (insert frames weight_ns t)
      ≡ (if begins_with path frames then sat_add (value_at path t) weight_ns else value_at path t)
unfolding insert begins_with
value_at-insert [] [] w t = unfold value_at in refl
value_at-insert [] (frame ∷ frames) w t = unfold value_at in refl
value_at-insert (l ∷ path) [] w t = unfold value_at in refl
value_at-insert (l ∷ path) (frame ∷ frames) w (builder v cs) =
    elim (Bool-cases (text_eq l frame.label)) [
      | inl same ↦
          let e = text_eq→≡ l frame.label same in
          let here = value_at-entry_self frame.label path (sat_add v w) (insert frames w) cs in
          let below = value_at-insert path frames w (get_or_default (get_child frame.label cs)) in
          let before = value_at-get_child frame.label path (builder v cs) in
          rw (same, e, before) (here ∙ below)
      | inr other ↦
          rw other (value_at-entry_ne l frame.label path (sat_add v w) v (insert frames w) cs other)
    ]
