-- ===== src/Tax/Brackets/Tests.antt =====
-- Runs of the tax tables at concrete inputs.
use mlai_trade.Common.{arith, ◌≡◌, refl, none, some, List, [], ◌∷◌}
use mlai_trade.Common.Int.{pos, ◌+ℤ◌, ◌*ℤ◌, min_ℤ, ◌-ℤ◌}
use mlai_trade.Tax.Brackets.{
  OrdinaryBracket, must_end_open, validate_brackets, add_slice, progressive_tax,
}
use mlai_trade.Tax.Brackets.Valid.{IsTable}
use mlai_trade.Tax.Brackets.Slices.{slices, progressive_tax-eq-slices}

-- 10 % up to 1000, 20 % up to 5000 and 30 % above.
abbrev three_rows : List OrdinaryBracket
three_rows =
    (record { upper = some (pos 1000); rate = pos 1000 }
      ∷ record { upper = some (pos 5000); rate = pos 2000 }
      ∷ record { upper = none; rate = pos 3000 }
      ∷ [])

three_rows-IsTable : IsTable (pos 0) three_rows
three_rows-IsTable = ground arith

tax_of_7000 : progressive_tax (pos 7000) three_rows ≡ pos 15000000
unfolding progressive_tax add_slice min_ℤ ◌+ℤ◌ ◌-ℤ◌ ◌*ℤ◌
tax_of_7000 = refl

closed_last_row :
    validate_brackets (record { upper = some (pos 5); rate = pos 1 } ∷ []) ≡ some must_end_open
unfolding validate_brackets
closed_last_row = refl

progressive_tax-eq-slices_example :
    progressive_tax (pos 7000) three_rows ≡ slices (pos 7000) (pos 0) three_rows
progressive_tax-eq-slices_example =
    progressive_tax-eq-slices (pos 7000) three_rows three_rows-IsTable
