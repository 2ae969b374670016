-- ===== src/Models.antt =====
-- Parts of src/ml.rs that are no floating-point arithmetic: the weight grid, the row stride and the
-- decision trees. A double that is only compared is its rank, and `none` when it is no number.
pub mod Grid
pub mod Stride
pub mod Trees
mod Tests
use mlai_trade.Common.{
  ℕ, zero, suc, ◌+◌, ◌-◌, ◌*◌, ◌/◌, ◌≡◌, max, Bool, true, false, ◌||◌, Option, none, some, List, [],
  ◌∷◌, ◌++◌, if◌then◌else◌, leb, ◌==◌, length, get_elem?,
}
use mlai_trade.Common.Int.{ℤ, pos, negsuc, leb_ℤ}

-- `for value in 0..=remaining`, with the values left and the next one.
abbrev pub for_values {ℓ} : {A : Type ℓ} → (ℕ → A → A) → ℕ → ℕ → A → A
for_values body zero value out = out
for_values body (suc left) value out = for_values body left (suc value) (body value out)

-- `rec` with the indices left behind this one; a weight is its numerator over `steps`.
unfoldable pub grid_rec : ℕ → ℕ → List ℕ → List (List ℕ) → List (List ℕ)
grid_rec zero remaining current out = out ++ ((current ++ (remaining ∷ [])) ∷ [])
grid_rec (suc left) remaining current out =
    for_values (λ value out. grid_rec left (remaining - value) (current ++ (value ∷ [])) out)
      (suc remaining) 0 out

-- For no weights at all the recursion of the source has no end.
unfoldable pub generate_weight_grid : ℕ → ℕ → Option (List (List ℕ))
unfolding grid_rec
generate_weight_grid zero steps = none
generate_weight_grid (suc n) steps = some (grid_rec n steps [] [])

unfoldable pub row_stride_for_limit : ℕ → ℕ → ℕ
row_stride_for_limit total max_rows =
    if (max_rows == 0) || leb total max_rows then 1 else max ((total + max_rows - 1) / max_rows) 1

pub record TreeNode : Type 0 where
  pub split_feature : ℤ
  pub threshold : Option ℤ
  pub left_child : ℤ
  pub right_child : ℤ

abbrev at_most : Option ℤ → Option ℤ → Bool
at_most none b = false
at_most (some a) none = false
at_most (some a) (some b) = leb_ℤ a b

abbrev or_zero : Option (Option ℤ) → Option ℤ
or_zero none = some (pos 0)
or_zero (some value) = value

-- A negative index of a feature is out of range, as `usize`.
abbrev pub feature_value : List (Option ℤ) → ℤ → Option ℤ
feature_value features (pos i) = or_zero (get_elem? features i)
feature_value features (negsuc i) = some (pos 0)

abbrev pub goes_left : List (Option ℤ) → TreeNode → Bool
goes_left features node = at_most (feature_value features node.split_feature) node.threshold

module _ {A : Type 0} (zero_value : A) where
  abbrev pub leaf_value : Option A → A
  leaf_value none = zero_value
  leaf_value (some value) = value

  -- The loop of `traverse_tree`, on fuel; `none` is fuel that ran out.
  unfoldable pub traverse_from : List TreeNode → List A → List (Option ℤ) → ℕ → ℤ → Option A
  traverse_from nodes leaves features zero node_idx = none
  traverse_from nodes leaves features (suc fuel) (negsuc leaf) =
      some (leaf_value (get_elem? leaves leaf))
  traverse_from nodes leaves features (suc fuel) (pos idx) = elim (get_elem? nodes idx) [
    | none ↦ some zero_value
    | some node ↦
        traverse_from nodes leaves features fuel
          (if goes_left features node then node.left_child else node.right_child)
  ]

  unfoldable pub traverse_tree : List TreeNode → List A → List (Option ℤ) → ℕ → Option A
  unfolding traverse_from
  traverse_tree nodes leaves features fuel = traverse_from nodes leaves features fuel (pos 0)

abbrev or_default {ℓ} : {A : Type ℓ} → A → Option A → A
or_default default none = default
or_default default (some a) = a

-- The nodes that `load` builds for the indices from `j` on; a row that is too short gives zeros.
unfoldable pub nodes_from : List ℤ → List (Option ℤ) → List ℤ → List ℤ → ℕ → ℕ → List TreeNode
nodes_from splits thresholds lefts rights zero j = []
nodes_from splits thresholds lefts rights (suc left) j =
    record {
      split_feature = or_default (pos 0) (get_elem? splits j);
      threshold = or_default (some (pos 0)) (get_elem? thresholds j);
      left_child = or_default (pos 0) (get_elem? lefts j);
      right_child = or_default (pos 0) (get_elem? rights j);
    }
    ∷ nodes_from splits thresholds lefts rights left (suc j)

-- A block without splits or leaves is passed over; `num_leaves - 1` overflows for no leaves.
pub data LoadedTree : Type 0 where
  skipped overflow : LoadedTree
  loaded : List TreeNode → LoadedTree

unfoldable pub load_nodes {ℓ} :
    {A : Type ℓ} → ℕ → List A → List ℤ → List (Option ℤ) → List ℤ → List ℤ → LoadedTree
unfolding nodes_from
load_nodes num_leaves leaves [] thresholds lefts rights = skipped
load_nodes num_leaves [] (s ∷ splits) thresholds lefts rights = skipped
load_nodes zero (l ∷ leaves) (s ∷ splits) thresholds lefts rights = overflow
load_nodes (suc internal) (l ∷ leaves) (s ∷ splits) thresholds lefts rights =
    loaded (nodes_from (s ∷ splits) thresholds lefts rights internal 0)
