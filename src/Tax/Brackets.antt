-- ===== src/Tax/Brackets.antt =====
-- Tax tables of src/tax.rs: the validation of brackets and the taxes and rates read from them.
-- A money amount is a whole number of cents and a rate a whole number of ten-thousandths, so a tax is
-- a whole number of ten-thousandths of a cent; the rounding of f64 is not modelled.
pub mod Valid
pub mod Slices
pub mod Marginal
mod Tests
use mlai_trade.Common.{
  ℕ, suc, ◌+◌, Bool, true, false, not, ◌&&◌, Option, none, some, List, [], ◌∷◌, if◌then◌else◌, ◌==◌,
  length,
}
use mlai_trade.Common.Int.{ℤ, pos, ◌+ℤ◌, ◌-ℤ◌, ◌*ℤ◌, ltb_ℤ, leb_ℤ, min_ℤ, max_ℤ}

-- `None` is the open upper bound, `f64::INFINITY` in the computations.
pub record OrdinaryBracket : Type 0 where
  pub upper : Option ℤ
  pub rate : ℤ

-- The rate 1.0.
abbrev pub whole : ℤ
whole = pos 10000

-- The rows are counted from 1.
pub data BracketError : Type 0 where
  empty : BracketError
  invalid_rate : ℕ → ℤ → BracketError
  upper_not_greater : ℕ → ℤ → ℤ → BracketError
  open_before_end : BracketError
  must_end_open : BracketError

-- The last row's upper bound.
abbrev pub last_upper : List OrdinaryBracket → Option ℤ
last_upper [] = none
last_upper (b ∷ []) = b.upper
last_upper (b ∷ c ∷ bs) = last_upper (c ∷ bs)

-- The loop over the rows, then the test of the last row.
unfoldable pub validate_rows : ℕ → ℕ → ℤ → Option ℤ → List OrdinaryBracket → Option BracketError
validate_rows len idx previous last [] = elim last [ none ↦ none | some u ↦ some must_end_open ]
validate_rows len idx previous last (b ∷ bs) =
    if not (leb_ℤ (pos 0) b.rate && leb_ℤ b.rate whole)
    then some (invalid_rate (idx + 1) b.rate)
    else elim b.upper [
      | some upper ↦
          if leb_ℤ upper previous
          then some (upper_not_greater (idx + 1) upper previous)
          else validate_rows len (idx + 1) upper last bs
      | none ↦
          if not ((idx + 1) == len)
          then some open_before_end
          else validate_rows len (idx + 1) previous last bs
    ]

-- `none` is `Ok(())`.
unfoldable pub validate_brackets : List OrdinaryBracket → Option BracketError
unfolding validate_rows
validate_brackets [] = some empty
validate_brackets (b ∷ bs) =
    validate_rows (length (b ∷ bs)) 0 (pos 0) (last_upper (b ∷ bs)) (b ∷ bs)

-- `income.min(upper)`, and `income <= upper`.
abbrev pub up_to : ℤ → Option ℤ → ℤ
up_to income none = income
up_to income (some u) = min_ℤ income u

abbrev pub is_within : ℤ → Option ℤ → Bool
is_within income none = true
is_within income (some u) = leb_ℤ income u

unfoldable pub add_slice : ℤ → ℤ → ℤ → ℤ
add_slice tax amount rate = if ltb_ℤ (pos 0) amount then tax +ℤ amount *ℤ rate else tax

-- The loop, which stops at the bracket that holds the income.
unfoldable pub progressive_loop : ℤ → ℤ → ℤ → List OrdinaryBracket → ℤ
progressive_loop income prev tax [] = tax
progressive_loop income prev tax (b ∷ bs) =
    let tax' : ℤ = add_slice tax (up_to income b.upper -ℤ prev) b.rate in
    elim b.upper [
      | none ↦ tax'
      | some u ↦ elim (leb_ℤ income u) [ true ↦ tax' | false ↦ progressive_loop income u tax' bs ]
    ]

unfoldable pub progressive_tax : ℤ → List OrdinaryBracket → ℤ
unfolding progressive_loop
progressive_tax income bs =
    if leb_ℤ income (pos 0) then pos 0 else progressive_loop income (pos 0) (pos 0) bs

-- The first bracket whose bound holds the income; behind all of them, the last one's rate.
unfoldable pub rate_within : ℤ → ℤ → List OrdinaryBracket → ℤ
rate_within income last [] = last
rate_within income last (b ∷ bs) =
    let rest = rate_within income b.rate bs in if is_within income b.upper then b.rate else rest

unfoldable pub marginal_rate : ℤ → List OrdinaryBracket → ℤ
unfolding rate_within
marginal_rate income bs = rate_within (max_ℤ income (pos 0)) (pos 0) bs

unfoldable pub capital_gain_tax : ℤ → ℤ → List OrdinaryBracket → ℤ
unfolding progressive_tax
capital_gain_tax base gain bs =
    if leb_ℤ gain (pos 0)
    then pos 0
    else progressive_tax (max_ℤ base (pos 0) +ℤ gain) bs -ℤ progressive_tax base bs

-- The parts of `TaxYearTable` that the net investment income tax reads; no threshold is infinity.
pub record NiitTable : Type 0 where
  pub niit_rate : ℤ
  pub niit_threshold : Option ℤ

abbrev above_threshold : ℤ → Option ℤ → ℤ
above_threshold income none = pos 0
above_threshold income (some t) = max_ℤ (income -ℤ t) (pos 0)

unfoldable pub niit_tax_for_trading_gains : NiitTable → ℤ → ℤ → ℤ → ℤ
niit_tax_for_trading_gains table income short_term long_term =
    let net : ℤ = max_ℤ (short_term +ℤ long_term) (pos 0) in
    if leb_ℤ net (pos 0)
    then pos 0
    else min_ℤ net (above_threshold (income +ℤ net) table.niit_threshold) *ℤ table.niit_rate
