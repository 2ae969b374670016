-- ===== src/Tax/Brazil/Tests.antt =====
-- Brazil's computation at concrete inputs.
use mlai_trade.Common.{◌≡◌, refl, List, [], ◌∷◌, ℕ, ◌/◌, false}
use mlai_trade.Common.Int.{ℤ, pos, negsuc, ◌+ℤ◌, ◌-ℤ◌, ◌*ℤ◌}
use mlai_trade.Tax.Positions.{ClosedPosition, br, mlai_auto}
use mlai_trade.Tax.Brazil.{
  brazil_tax_computation, sort_positions, sort_position, add_to_month, add_to_bucket, tax_months,
  tax_month, carry_on, close_year,
}
use mlai_trade.Tax.Brazil.Balance.{IsBrazilTax, brazil_tax_computation-IsBrazilTax}

abbrev trade : ℕ → ℕ → ℤ → ClosedPosition
trade entry_date exit_date pnl = record {
  provider = "xp";
  account_ref = "b1";
  account_mode = "live";
  paper_account = false;
  symbol = "PETR4";
  qty = 1000000000;
  entry_date = entry_date;
  entry_price = 5;
  exit_date = exit_date;
  exit_price = 9;
  pnl = pnl;
  entry_execution_origin = mlai_auto;
  exit_execution_origin = mlai_auto;
  execution_origin = mlai_auto;
  asset_market_country = br;
  source = "auto_positions";
}

-- A day trade's loss in one month and its gain in the next, and two normal trades: an exempt one,
-- and one whose month has sales above the limit.
abbrev four_trades : List ClosedPosition
four_trades =
    trade 35 35 (pos 500)
    ∷ trade 5 5 (negsuc 199)
    ∷ trade 5 9 (pos 70)
    ∷ record (trade 5 65 (pos 900)) { exit_price = 3000000 }
    ∷ []

abbrev month_of : ℕ → ℕ
month_of date = date / 30

taxed_amounts :
    ((brazil_tax_computation month_of four_trades).day_trade_taxable ≡ pos 300)
    × ((brazil_tax_computation month_of four_trades).normal_taxable ≡ pos 900)
unfolding brazil_tax_computation sort_positions sort_position add_to_month add_to_bucket tax_months
    tax_month carry_on close_year ◌+ℤ◌ ◌-ℤ◌ ◌*ℤ◌
taxed_amounts = (refl, refl)

brazil_tax_computation-IsBrazilTax_example :
    IsBrazilTax month_of four_trades (brazil_tax_computation month_of four_trades)
brazil_tax_computation-IsBrazilTax_example = brazil_tax_computation-IsBrazilTax month_of four_trades
