-- ===== src/Remote/Dns.antt =====
-- src/api.rs `encode_dns_name` and `parse_dns_name`. A text is the list of its bytes; the domain is
-- what is left behind the two `trim`s. `lossy` stands for `String::from_utf8_lossy`.
pub mod Bytes
pub mod RoundTrip
mod Tests
use Prim.Native.Nat.{bit_and, bit_or}
use mlai_trade.Common.{
  ℕ, zero, suc, ◌+◌, ◌-◌, ◌*◌, Bool, true, false, not, ◌||◌, Option, none, some, List, [], ◌∷◌,
  ◌++◌, if◌then◌else◌, ltb, ◌==◌, length, get_elem?, take, drop,
}

abbrev pub dot : ℕ
dot = 46

abbrev pub add_to_first : ℕ → List (List ℕ) → List (List ℕ)
add_to_first c [] = (c ∷ []) ∷ []
add_to_first c (label ∷ labels) = (c ∷ label) ∷ labels

-- `split('.')`
abbrev pub split_dots : List ℕ → List (List ℕ)
split_dots [] = [] ∷ []
split_dots (c ∷ cs) =
    let rest = split_dots cs in if c == dot then [] ∷ rest else add_to_first c rest

-- `join(".")`
abbrev pub join_dots : List (List ℕ) → List ℕ
join_dots [] = []
join_dots (label ∷ []) = label
join_dots (label ∷ next ∷ labels) = label ++ (dot ∷ join_dots (next ∷ labels))

pub data NameError : Type 0 where
  empty_domain invalid_label : NameError
  truncated pointer_truncated unsupported_label label_truncated loop_detected : NameError

pub data Parsed {ℓ} (A : Type ℓ) : Type ℓ where
  ok : A → Parsed A
  failed : NameError → Parsed A

abbrev pub is_bad_label : List ℕ → Bool
is_bad_label label = (length label == 0) || ltb 63 (length label)

unfoldable pub encode_labels : List (List ℕ) → Parsed (List ℕ)
encode_labels [] = ok (0 ∷ [])
encode_labels (label ∷ labels) =
    if is_bad_label label then failed invalid_label else elim (encode_labels labels) [
      | failed e ↦ failed e
      | ok bytes ↦ ok ((length label ∷ label) ++ bytes)
    ]

unfoldable pub encode_dns_name : List ℕ → Parsed (List ℕ)
unfolding encode_labels
encode_dns_name [] = failed empty_domain
encode_dns_name (c ∷ cs) = encode_labels (split_dots (c ∷ cs))

-- `len & 0xc0`, and the offset that a pointer's two bytes hold.
abbrev pub top_bits : ℕ → ℕ
top_bits len = bit_and len 0xc0

abbrev pub pointer_offset : ℕ → ℕ → ℕ
pointer_offset len low = bit_or (bit_and len 0x3f * 256) low

abbrev pub name_of : List (List ℕ) → List ℕ
name_of [] = dot ∷ []
name_of (label ∷ labels) = join_dots (label ∷ labels)

-- The name and the offset behind it.
pub record Name : Type 0 where
  pub name : List ℕ
  pub next : ℕ

module _ (lossy : List ℕ → List ℕ) (buf : List ℕ) where
  -- The loop, with its rounds left; `next` is fixed by the first jump.
  unfoldable pub parse_loop : ℕ → List (List ℕ) → ℕ → ℕ → Bool → Parsed Name
  parse_loop zero labels pos next jumped = failed loop_detected
  parse_loop (suc rounds) labels pos next jumped = elim (get_elem? buf pos) [
    | none ↦ failed truncated
    | some len ↦ elim (top_bits len == 0xc0) [
      | true ↦ elim (get_elem? buf (pos + 1)) [
        | none ↦ failed pointer_truncated
        | some low ↦
            parse_loop rounds labels (pointer_offset len low) (if jumped then next else pos + 2)
              true
      ]
      | false ↦ elim (len == 0) [
        | true ↦ ok (record { name = name_of labels; next = if jumped then next else pos + 1 })
        | false ↦ elim (top_bits len == 0) [
          | false ↦ failed unsupported_label
          | true ↦ elim (ltb (length buf) (pos + 1 + len)) [
            | true ↦ failed label_truncated
            | false ↦
                parse_loop rounds (labels ++ (lossy (take len (drop (pos + 1) buf)) ∷ []))
                  (pos + 1 + len) next jumped
          ]
        ]
      ]
    ]
  ]

  unfoldable pub parse_dns_name : ℕ → Parsed Name
  unfolding parse_loop
  parse_dns_name offset = parse_loop 32 [] offset offset false
