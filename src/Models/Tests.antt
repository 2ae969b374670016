-- ===== src/Models/Tests.antt =====
-- A small grid, a stride and a tree of two nodes.
use mlai_trade.Common.{
  ℕ, ◌≡◌, refl, ◌&&◌, Option, some, none, List, [], ◌∷◌, arith, if◌then◌else◌, ◌==◌, length,
}
use mlai_trade.Common.Int.{ℤ, pos, negsuc}
use mlai_trade.Models.{generate_weight_grid, TreeNode, traverse_tree, loaded, load_nodes}
use mlai_trade.Models.Grid.{occurrences, sum, generate_weight_grid-occurrences}
use mlai_trade.Models.Trees.{
  DecisionTree, leaf, split, decide, depth, at_leaf, at_node, traverse_tree-decide,
  load_nodes-traverse_tree,
}

grid_2_2 : generate_weight_grid 2 2 ≡ some ((0 ∷ 2 ∷ []) ∷ (1 ∷ 1 ∷ []) ∷ (2 ∷ 0 ∷ []) ∷ [])
unfolding generate_weight_grid
grid_2_2 = refl

generate_weight_grid-occurrences_example :
    (grid : List (List ℕ)) × (generate_weight_grid 3 10 ≡ some grid)
    × ((weights : List ℕ)
        → occurrences weights grid
          ≡ (if (length weights == 3) && (sum weights == 10) then 1 else 0))
generate_weight_grid-occurrences_example = generate_weight_grid-occurrences 2 10

abbrev first : TreeNode
first = record {
  split_feature = pos 0;
  threshold = some (pos 5);
  left_child = negsuc 0;
  right_child = pos 1;
}

abbrev second : TreeNode
second = record {
  split_feature = pos 1;
  threshold = some (pos 3);
  left_child = negsuc 1;
  right_child = negsuc 2;
}

abbrev two_nodes : List TreeNode
two_nodes = first ∷ second ∷ []

abbrev three_leaves : List ℕ
three_leaves = 10 ∷ 20 ∷ 30 ∷ []

abbrev point : List (Option ℤ)
point = some (pos 9) ∷ some (pos 2) ∷ []

abbrev two_splits : DecisionTree ℕ
two_splits = split first (leaf 10) (split second (leaf 20) (leaf 30))

right_then_left : traverse_tree 0 two_nodes three_leaves point 3 ≡ some 20
unfolding traverse_tree
right_then_left = refl

traverse_tree-decide_example :
    traverse_tree 0 two_nodes three_leaves point 3 ≡ some (decide point two_splits)
unfolding depth
traverse_tree-decide_example =
    traverse_tree-decide 0 two_nodes three_leaves point 3 two_splits
      (at_node 0 first (leaf 10) (split second (leaf 20) (leaf 30)) refl (at_leaf 0)
        (at_node 1 second (leaf 20) (leaf 30) refl (at_leaf 1) (at_leaf 2)))
      (omega arith)

load_nodes-traverse_tree_example :
    (nodes : List TreeNode) × (load_nodes {A = ℕ} 2
        (10 ∷ 20 ∷ [])
        (pos 0 ∷ [])
        (some (pos 5) ∷ [])
        []
        []
      ≡ loaded nodes)
    × (traverse_tree {A = ℕ} 0 nodes (10 ∷ 20 ∷ []) point 100 ≡ none)
load_nodes-traverse_tree_example =
    load_nodes-traverse_tree 0 10 (20 ∷ []) (pos 0) [] (some (pos 5) ∷ []) 0 100 point
