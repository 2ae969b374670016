-- ===== src/Tax/Brazil.antt =====
-- src/tax.rs `brazil_tax_computation`: the monthly buckets of Brazil and their losses carried on.
-- A tax is a whole number of ten-thousandths of the unit of profit. The year and the month of a date
-- are the calendar's, here one number that grows with them.
pub mod Months
pub mod Balance
mod Tests
use mlai_trade.Common.{
  ℕ, ◌+◌, ◌*◌, Bool, true, false, not, ◌&&◌, ◌||◌, List, [], ◌∷◌, if◌then◌else◌, ltb, leb, ◌==◌,
}
use mlai_trade.Common.Int.{ℤ, pos, ◌+ℤ◌, ◌-ℤ◌, ◌*ℤ◌, ltb_ℤ}
use mlai_trade.Tax.Positions.{ClosedPosition, is_br}
use mlai_trade.Tax.Netting.{is_brazil_day_trade}

pub record BrazilMonthlyBucket : Type 0 where
  pub normal_sales : ℕ
  pub normal_net : ℤ
  pub day_trade_net : ℤ

-- The map's entries, in the order of their months.
pub record Month : Type 0 where
  pub key : ℕ
  pub bucket : BrazilMonthlyBucket

pub record BrazilTaxComputation : Type 0 where
  pub normal_taxable : ℤ
  pub day_trade_taxable : ℤ
  pub foreign_taxable : ℤ
  pub normal_tax : ℤ
  pub day_trade_tax : ℤ
  pub foreign_tax : ℤ
  pub loss_after_netting : ℤ

-- 20_000.0 in the unit of profit.
abbrev pub exempt_sales : ℕ
exempt_sales = 2000000 * 1000000000

abbrev pub empty_bucket : BrazilMonthlyBucket
empty_bucket = record { normal_sales = 0; normal_net = pos 0; day_trade_net = pos 0 }

unfoldable pub add_to_bucket : ClosedPosition → BrazilMonthlyBucket → BrazilMonthlyBucket
add_to_bucket c b =
    if is_brazil_day_trade c
    then record b { day_trade_net = b.day_trade_net +ℤ c.pnl }
    else record {
      normal_sales = b.normal_sales + c.exit_price * c.qty;
      normal_net = b.normal_net +ℤ c.pnl;
      day_trade_net = b.day_trade_net;
    }

-- `months.entry(key).or_default()` and the change of the bucket.
unfoldable pub add_to_month : ℕ → ClosedPosition → List Month → List Month
unfolding add_to_bucket
add_to_month key c [] = record { key = key; bucket = add_to_bucket c empty_bucket } ∷ []
add_to_month key c (m ∷ ms) =
    let rest = add_to_month key c ms in
    if key == m.key
    then record m { bucket = add_to_bucket c m.bucket } ∷ ms
    else if ltb key m.key
    then record { key = key; bucket = add_to_bucket c empty_bucket } ∷ m ∷ ms
    else m ∷ rest

pub record Sorted : Type 0 where
  pub months : List Month
  pub foreign_net : ℤ

unfoldable pub sort_position : (ℕ → ℕ) → ClosedPosition → Sorted → Sorted
unfolding add_to_month
sort_position month_of c s =
    if is_br c.asset_market_country
    then record {
      months = add_to_month (month_of c.exit_date) c s.months;
      foreign_net = s.foreign_net;
    }
    else record { months = s.months; foreign_net = s.foreign_net +ℤ c.pnl }

unfoldable pub sort_positions : (ℕ → ℕ) → List ClosedPosition → Sorted → Sorted
unfolding sort_position
sort_positions month_of [] s = s
sort_positions month_of (c ∷ cs) s = sort_positions month_of cs (sort_position month_of c s)

-- What one kind of trade has been taxed so far, and its loss carried on.
pub record Carry : Type 0 where
  pub taxable : ℤ
  pub tax : ℤ
  pub loss_carry : ℤ

abbrev pub no_carry : Carry
no_carry = record { taxable = pos 0; tax = pos 0; loss_carry = pos 0 }

-- The same lines serve day trades at 0.20 and normal trades at 0.15.
unfoldable pub carry_on : ℤ → ℤ → Carry → Carry
carry_on rate net c =
    if ltb_ℤ (pos 0) (net -ℤ c.loss_carry)
    then record {
      taxable = c.taxable +ℤ (net -ℤ c.loss_carry);
      tax = c.tax +ℤ (net -ℤ c.loss_carry) *ℤ rate;
      loss_carry = pos 0;
    }
    else record { taxable = c.taxable; tax = c.tax; loss_carry = pos 0 -ℤ (net -ℤ c.loss_carry) }

-- The two `continue`s.
abbrev pub is_exempt : BrazilMonthlyBucket → Bool
is_exempt b =
    leb b.normal_sales exempt_sales && (ltb_ℤ (pos 0) b.normal_net || ltb_ℤ b.normal_net (pos 0))

pub record Carries : Type 0 where
  pub day : Carry
  pub normal : Carry

unfoldable pub tax_month : BrazilMonthlyBucket → Carries → Carries
unfolding carry_on
tax_month b c = record {
  day = carry_on (pos 2000) b.day_trade_net c.day;
  normal = if is_exempt b then c.normal else carry_on (pos 1500) b.normal_net c.normal;
}

unfoldable pub tax_months : List Month → Carries → Carries
unfolding tax_month
tax_months [] c = c
tax_months (m ∷ ms) c = tax_months ms (tax_month m.bucket c)

unfoldable pub close_year : ℤ → Carries → BrazilTaxComputation
close_year foreign_net c = record {
  normal_taxable = c.normal.taxable;
  day_trade_taxable = c.day.taxable;
  foreign_taxable = if ltb_ℤ (pos 0) foreign_net then foreign_net else pos 0;
  normal_tax = c.normal.tax;
  day_trade_tax = c.day.tax;
  foreign_tax = if ltb_ℤ (pos 0) foreign_net then foreign_net *ℤ pos 1500 else pos 0;
  loss_after_netting =
      (if ltb_ℤ (pos 0) foreign_net then pos 0 else pos 0 -ℤ foreign_net)
      +ℤ (c.normal.loss_carry +ℤ c.day.loss_carry);
}

abbrev pub sorted : (ℕ → ℕ) → List ClosedPosition → Sorted
sorted month_of cs = sort_positions month_of cs (record { months = []; foreign_net = pos 0 })

unfoldable pub brazil_tax_computation : (ℕ → ℕ) → List ClosedPosition → BrazilTaxComputation
unfolding sort_positions tax_months close_year
brazil_tax_computation month_of cs =
    close_year (sorted month_of cs).foreign_net
      (tax_months (sorted month_of cs).months (record { day = no_carry; normal = no_carry }))
