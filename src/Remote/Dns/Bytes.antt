-- ===== src/Remote/Dns/Bytes.antt =====
-- The bytes and the texts of src/api.rs DNS names.
use mlai_trade.Common.{
  ℕ, ◌≤◌, ◌≡◌, refl, ap, inl, inr, true, false, not, ◌&&◌, List, [], ◌∷◌, arith, ◌==◌, Bool-cases,
}
use mlai_trade.Remote.Bits.{table, table_entry}
use mlai_trade.Remote.Dns.{dot, add_to_first, split_dots, join_dots, top_bits}

label_table : table (λ len. (top_bits len == 0) && not (top_bits len == 0xc0)) 64 ≡ true
unfolding table
label_table = refl

-- A label's length has no top bits.
pub label_bits :
    (len : ℕ) → len ≤ 63 → ((top_bits len == 0) ≡ true) × ((top_bits len == 0xc0) ≡ false)
label_bits len h =
    let t =
      table_entry (λ x. (top_bits x == 0) && not (top_bits x == 0xc0)) 64 len (omega arith)
        label_table in
    (ground (arith, t), ground (arith, t))

add_to_first-join :
    (c : ℕ) (labels : List (List ℕ)) → join_dots (add_to_first c labels) ≡ c ∷ join_dots labels
add_to_first-join c [] = refl
add_to_first-join c (label ∷ []) = refl
add_to_first-join c (label ∷ next ∷ labels) = refl

pub split_dots-some :
    (cs : List ℕ) → (label : List ℕ) × (labels : List (List ℕ)) × (split_dots cs ≡ label ∷ labels)
split_dots-some [] = ([], [], refl)
split_dots-some (c ∷ cs) =
    let (label, labels, e) = split_dots-some cs in
    elim (Bool-cases (c == dot)) [
      | inl at_dot ↦ ([], label ∷ labels, rw (at_dot, e) refl)
      | inr other ↦ (c ∷ label, labels, rw (other, e) refl)
    ]

-- Splitting a text at its dots and joining the parts gives the text.
pub join_dots-split_dots : (cs : List ℕ) → join_dots (split_dots cs) ≡ cs
join_dots-split_dots [] = refl
join_dots-split_dots (c ∷ cs) =
    let (label, labels, e) = split_dots-some cs in
    let rest = join_dots-split_dots cs in
    elim (Bool-cases (c == dot)) [
      | inl at_dot ↦
          let rest' = rw e at rest in
          let is_dot : c ≡ dot = ground arith in
          rw (at_dot, e, is_dot) (ap (λ (l : List ℕ). dot ∷ l) rest')
      | inr other ↦ rw (other, add_to_first-join c (split_dots cs), rest) refl
    ]
