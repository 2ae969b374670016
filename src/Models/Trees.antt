-- ===== src/Models/Trees.antt =====
-- The decision trees of src/ml.rs: the loop over the arrays follows the tree that they represent.
use mlai_trade.Common.{
  Bool, false, not, sym, ◌∙◌, ℕ, zero, suc, ◌+◌, ◌≤◌, ◌<◌, ◌≡◌, max, refl, subst, inl, inr, Option,
  none, some, List, [], ◌∷◌, arith, if◌then◌else◌, Bool-cases, Option-cases, length, get_elem?,
}
use mlai_trade.Common.Int.{ℤ, pos, negsuc, ltb_ℤ}
use mlai_trade.Models.{
  TreeNode, goes_left, leaf_value, traverse_from, traverse_tree, nodes_from, loaded, load_nodes,
}

pub data DecisionTree (A : Type 0) : Type 0 where
  leaf : A → DecisionTree A
  split : TreeNode → DecisionTree A → DecisionTree A → DecisionTree A

-- A value goes to the left up to the threshold; what is no number goes to the right.
abbrev within : Option ℤ → Option ℤ → Bool
within (some value) (some threshold) = not (ltb_ℤ threshold value)
within (some value) none = false
within none threshold = false

-- A feature that the row does not have counts as 0.
abbrev is_left_of : Option (Option ℤ) → Option ℤ → Bool
is_left_of none threshold = within (some (pos 0)) threshold
is_left_of (some value) threshold = within value threshold

abbrev is_left : List (Option ℤ) → ℤ → Option ℤ → Bool
is_left features (pos i) threshold = is_left_of (get_elem? features i) threshold
is_left features (negsuc i) threshold = within (some (pos 0)) threshold

goes_left-is_left :
    (features : List (Option ℤ)) (node : TreeNode)
    → goes_left features node ≡ is_left features node.split_feature node.threshold
goes_left-is_left features node = ground arith

module _ {A : Type 0} where
  unfoldable pub decide : List (Option ℤ) → DecisionTree A → A
  decide features (leaf value) = value
  decide features (split node left right) =
      let l = decide features left in
      let r = decide features right in
      if is_left features node.split_feature node.threshold then l else r

  unfoldable pub depth : DecisionTree A → ℕ
  depth (leaf value) = 1
  depth (split node left right) = suc (max (depth left) (depth right))

  depth_positive : (t : DecisionTree A) → 1 ≤ depth t
  unfolding depth
  depth_positive (leaf value) = omega arith
  depth_positive (split node left right) = omega arith

  -- The node or leaf at an index of the arrays stands for a tree.
  pub data Represents (zero_value : A) (nodes : List TreeNode) (leaves : List A)
      : ℤ → DecisionTree A → Type 0 where
    at_leaf :
        (i : ℕ)
        → Represents zero_value nodes leaves
            (negsuc i)
            (leaf (leaf_value zero_value (get_elem? leaves i)))
    outside :
        (i : ℕ)
        → get_elem? nodes i ≡ none
        → Represents zero_value nodes leaves (pos i) (leaf zero_value)
    at_node :
        (i : ℕ) (node : TreeNode) (left right : DecisionTree A)
        → get_elem? nodes i ≡ some node
        → Represents zero_value nodes leaves node.left_child left
        → Represents zero_value nodes leaves node.right_child right
        → Represents zero_value nodes leaves (pos i) (split node left right)

  module _ (zero_value : A) (nodes : List TreeNode) (leaves : List A)
      (features : List (Option ℤ)) where
    traverse_from-Represents :
        (fuel : ℕ) (idx : ℤ) (t : DecisionTree A)
        → Represents zero_value nodes leaves idx t
        → depth t ≤ fuel
        → traverse_from zero_value nodes leaves features fuel idx ≡ some (decide features t)
    unfolding traverse_from decide depth
    traverse_from-Represents zero idx t r h = absurd (omega (arith, depth_positive t))
    traverse_from-Represents (suc fuel) _ _ (at_leaf i) h = refl
    traverse_from-Represents (suc fuel) _ _ (outside i e) h = rw (traverse_from, e) refl
    traverse_from-Represents (suc fuel) _ _ (at_node i node left right e l r) h =
        elim (Bool-cases (goes_left features node)) [
          | inl goes ↦
              rw (traverse_from, e, goes, sym (goes_left-is_left features node) ∙ goes)
                (traverse_from-Represents fuel node.left_child left l (omega arith))
          | inr stays ↦
              rw (traverse_from, e, stays, sym (goes_left-is_left features node) ∙ stays)
                (traverse_from-Represents fuel node.right_child right r (omega arith))
        ]

    -- Where the arrays represent a decision tree, the loop returns what the tree decides, with as many rounds as
    -- the tree is deep.
    pub traverse_tree-decide :
        (fuel : ℕ) (t : DecisionTree A)
        → Represents zero_value nodes leaves (pos 0) t
        → depth t ≤ fuel
        → traverse_tree zero_value nodes leaves features fuel ≡ some (decide features t)
    unfolding traverse_tree
    traverse_tree-decide fuel t r h = traverse_from-Represents fuel (pos 0) t r h

-- The child is a leaf or stands behind the index.
abbrev pub IsBehind : ℕ → ℤ → Type 0
IsBehind i (pos j) = i < j
IsBehind i (negsuc k) = Unit

-- Every child of the nodes from index `i` on stands behind its node.
abbrev pub IsForward : ℕ → List TreeNode → Type 0
IsForward i [] = Unit
IsForward i (node ∷ nodes) =
    IsBehind i node.left_child × IsBehind i node.right_child × IsForward (suc i) nodes

IsForward-node :
    (start i : ℕ) (nodes : List TreeNode) (node : TreeNode)
    → IsForward start nodes
    → get_elem? nodes i ≡ some node
    → IsBehind (start + i) node.left_child × IsBehind (start + i) node.right_child
IsForward-node start i [] node h e = ground (arith, e)
IsForward-node start zero (first ∷ nodes) node (l, r, h) e =
    let same : first ≡ node = ground arith in
    let here : start + 0 ≡ start = omega arith in
    rw here (
      subst (λ (n : TreeNode). IsBehind start n.left_child × IsBehind start n.right_child) same
        (l, r))
IsForward-node start (suc i) (first ∷ nodes) node (l, r, h) e =
    let later : start + suc i ≡ suc start + i = omega arith in
    rw later (IsForward-node (suc start) i nodes node h e)

none_behind : {A : Type 0} (xs : List A) (i : ℕ) → length xs ≤ i → get_elem? xs i ≡ none
none_behind [] i h = refl
none_behind (x ∷ xs) zero h = absurd (omega arith)
none_behind (x ∷ xs) (suc i) h = none_behind xs i (omega arith)

module _ {A : Type 0} (zero_value : A) (nodes : List TreeNode) (leaves : List A)
    (forward : IsForward 0 nodes) where
  -- A tree for an index, no deeper than a bound.
  abbrev HasTree : ℤ → ℕ → Type 0
  HasTree idx bound =
      (t : DecisionTree A) × Represents zero_value nodes leaves idx t × (depth t ≤ bound)

  forward-HasTree : (m i : ℕ) → length nodes ≤ i + m → HasTree (pos i) (suc m)
  unfolding depth
  forward-HasTree zero i h =
      (leaf zero_value, outside i (none_behind nodes i (omega arith)), omega arith)
  forward-HasTree (suc m) i h = elim (Option-cases (get_elem? nodes i)) [
    | inl missing ↦ (leaf zero_value, outside i missing, omega arith)
    | inr (node, found) ↦
        let (left_behind, right_behind) = IsForward-node 0 i nodes node forward found in
        let smaller = λ (j : ℕ) (k : length nodes ≤ j + m). forward-HasTree m j k in
        let (left, l, p) = child smaller node.left_child left_behind in
        let (right, r, q) = child smaller node.right_child right_behind in
        (split node left right, at_node i node left right found l r, omega (arith, p, q))
  ]
    where
      child :
          ((j : ℕ) → length nodes ≤ j + m → HasTree (pos j) (suc m))
          → (idx : ℤ) → IsBehind (0 + i) idx
          → HasTree idx (suc m)
      child smaller (pos j) behind = smaller j (omega arith)
      child smaller (negsuc k) behind =
          (leaf (leaf_value zero_value (get_elem? leaves k)), at_leaf k, omega arith)

  -- If every child stands behind its node, as in the files that the trainer writes, the loop ends within one
  -- round more than there are nodes, for all features, with the decision of one tree.
  traverse_tree-IsForward :
      (t : DecisionTree A) × ((features : List (Option ℤ))
        → traverse_tree zero_value nodes leaves features (suc (length nodes))
          ≡ some (decide features t))
  traverse_tree-IsForward =
      let (t, r, h) = forward-HasTree (length nodes) 0 (omega arith) in
      (
        t,
        λ features.
            traverse_tree-decide zero_value nodes leaves features (suc (length nodes)) t r h,
      )

-- A first node with itself for both children is never left.
own_child :
    {A : Type 0} (zero_value : A) (node : TreeNode) (nodes : List TreeNode) (leaves : List A)
    (features : List (Option ℤ)) (fuel : ℕ)
    → node.left_child ≡ pos 0
    → node.right_child ≡ pos 0
    → traverse_from zero_value (node ∷ nodes) leaves features fuel (pos 0) ≡ none
unfolding traverse_from
own_child zero_value node nodes leaves features zero l r = refl
own_child zero_value node nodes leaves features (suc fuel) l r =
    let rest = own_child zero_value node nodes leaves features fuel l r in
    elim (Bool-cases (goes_left features node)) [
      | inl goes ↦ rw (traverse_from, goes, l) rest
      | inr stays ↦ rw (traverse_from, stays, r) rest
    ]

-- A tree of at least two leaves whose file lacks the rows of the children is loaded, but its first node leads
-- back to itself, and no number of rounds ends the loop.
pub load_nodes-traverse_tree :
    {A : Type 0} (zero_value : A) (l : A) (leaves : List A) (s : ℤ) (splits : List ℤ)
    (thresholds : List (Option ℤ)) (n fuel : ℕ) (features : List (Option ℤ))
    → (nodes : List TreeNode) × (load_nodes (suc (suc n)) (l ∷ leaves) (s ∷ splits) thresholds [] []
        ≡ loaded nodes)
      × (traverse_tree zero_value nodes (l ∷ leaves) features fuel ≡ none)
unfolding load_nodes nodes_from traverse_tree
load_nodes-traverse_tree zero_value l leaves s splits thresholds n fuel features = (
  nodes_from (s ∷ splits) thresholds [] [] (suc n) 0,
  refl,
  own_child zero_value _ (nodes_from (s ∷ splits) thresholds [] [] n 1) (l ∷ leaves) features fuel
      refl refl,
)
