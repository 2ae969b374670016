-- ===== src/Tax/Brackets/Valid.antt =====
-- What src/tax.rs `validate_brackets` accepts.
use mlai_trade.Common.{
  ℕ, ◌+◌, ◌≡◌, ◌↔◌, none, some, List, [], ◌∷◌, arith, length, inl, inr, Option-cases,
}
use mlai_trade.Common.Int.{ℤ, pos, ◌≤ℤ◌}
use mlai_trade.Tax.Brackets.{OrdinaryBracket, whole, last_upper, validate_rows, validate_brackets}

abbrev pub IsRate : ℤ → Type 0
IsRate r = (pos 0 ≤ℤ r) × (r ≤ℤ whole)

-- A table above `prev`: rates between 0 and 1, upper bounds that grow, and an open last row.
abbrev pub IsTable : ℤ → List OrdinaryBracket → Type 0
IsTable prev [] = ⊥
IsTable prev (b ∷ bs) =
    IsRate b.rate × (elim b.upper [ none ↦ bs ≡ [] | some u ↦ (¬ (u ≤ℤ prev)) × IsTable u bs ])

validate_rows_iff :
    (len idx : ℕ) (prev : ℤ) (b : OrdinaryBracket) (bs : List OrdinaryBracket)
    → idx + length (b ∷ bs) ≡ len
    → (validate_rows len idx prev (last_upper (b ∷ bs)) (b ∷ bs) ≡ none) ↔ IsTable prev (b ∷ bs)
unfolding validate_rows
validate_rows_iff len idx prev b [] e = elim (Option-cases b.upper) [
  | inl open_end ↦ rw (open_end, validate_rows) (ground arith)
  | inr (u, bound) ↦ rw (bound, validate_rows) (ground arith)
]
validate_rows_iff len idx prev b (c ∷ bs) e = elim (Option-cases b.upper) [
  | inl open_end ↦ rw (open_end, validate_rows) (ground arith)
  | inr (u, bound) ↦
      rw (bound, validate_rows)
        (ground (arith, validate_rows_iff len (idx + 1) u c bs (omega arith)))
]

-- The validation accepts exactly the tables whose rates lie between 0 and 1, whose upper bounds are
-- positive and grow, and whose last row and no other is open.
validate_brackets_iff :
    (bs : List OrdinaryBracket) → (validate_brackets bs ≡ none) ↔ IsTable (pos 0) bs
unfolding validate_brackets
validate_brackets_iff [] = ground arith
validate_brackets_iff (b ∷ bs) = validate_rows_iff (length (b ∷ bs)) 0 (pos 0) b bs (omega arith)
