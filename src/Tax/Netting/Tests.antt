-- ===== src/Tax/Netting/Tests.antt =====
-- The totals and the netting at concrete inputs.
use mlai_trade.Common.{◌≡◌, refl, List, [], ◌∷◌, ℕ, false, arith}
use mlai_trade.Common.Int.{ℤ, pos, negsuc, ◌+ℤ◌, min_ℤ, max_ℤ}
use mlai_trade.Tax.Positions.{ClosedPosition, us, mlai_auto}
use mlai_trade.Tax.Netting.{net_taxable, Totals, no_totals}
use mlai_trade.Tax.Netting.Balance.{IsBalanced}

loss_left : net_taxable (pos 30) (negsuc 99) ≡ record {
  taxable_short_term = pos 0;
  taxable_long_term = pos 0;
  capital_loss_after_netting = negsuc 69;
}
unfolding net_taxable ◌+ℤ◌ min_ℤ max_ℤ
loss_left = refl

abbrev position : ℕ → ℤ → ClosedPosition
position exit_date pnl = record {
  provider = "alpaca";
  account_ref = "a1";
  account_mode = "live";
  paper_account = false;
  symbol = "AAPL";
  qty = 1000;
  entry_date = 10;
  entry_price = 5;
  exit_date = exit_date;
  exit_price = 9;
  pnl = pnl;
  entry_execution_origin = mlai_auto;
  exit_execution_origin = mlai_auto;
  execution_origin = mlai_auto;
  asset_market_country = us;
  source = "auto_positions";
}

abbrev both_terms : List ClosedPosition
both_terms = position 20 (pos 4000) ∷ position 400 (negsuc 99) ∷ []

abbrev nothing : Totals
nothing = record { short_term = no_totals; long_term = no_totals }

no_totals-IsBalanced : IsBalanced no_totals
unfolding ◌+ℤ◌
no_totals-IsBalanced = record { gains = omega arith; losses = omega arith; net = refl }
