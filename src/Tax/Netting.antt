-- ===== src/Tax/Netting.antt =====
-- src/tax.rs: the totals of the realized positions, and the netting of short-term against long-term.
pub mod Balance
mod Tests
use mlai_trade.Common.{
  ℕ, suc, ◌+◌, ◌==◌, not, Bool, true, false, ◌&&◌, List, [], ◌∷◌, if◌then◌else◌, ltb,
}
use mlai_trade.Common.Int.{ℤ, pos, ◌+ℤ◌, leb_ℤ, ltb_ℤ, min_ℤ, max_ℤ}
use mlai_trade.Tax.Positions.{ClosedPosition, TaxCountry, is_br}

pub record TermTotals : Type 0 where
  pub gains : ℤ
  pub losses : ℤ
  pub net : ℤ
  pub count : ℕ

abbrev pub no_totals : TermTotals
no_totals = record { gains = pos 0; losses = pos 0; net = pos 0; count = 0 }

unfoldable pub add_to_totals : TermTotals → ℤ → TermTotals
add_to_totals totals pnl = record {
  gains = if leb_ℤ (pos 0) pnl then totals.gains +ℤ pnl else totals.gains;
  losses = if leb_ℤ (pos 0) pnl then totals.losses else totals.losses +ℤ pnl;
  net = totals.net +ℤ pnl;
  count = suc totals.count;
}

abbrev pub is_brazil_day_trade : ClosedPosition → Bool
is_brazil_day_trade c = is_br c.asset_market_country && (c.entry_date == c.exit_date)

-- Which totals a position counts for: in Brazil by day trade, else by more than 365 days.
abbrev pub is_long_term : TaxCountry → ClosedPosition → Bool
is_long_term country c =
    if is_br country then not (is_brazil_day_trade c) else ltb (c.entry_date + 365) c.exit_date

pub record Totals : Type 0 where
  pub short_term : TermTotals
  pub long_term : TermTotals

abbrev add_term : Bool → ℤ → Totals → Totals
add_term true pnl t = record {
  short_term = t.short_term;
  long_term = add_to_totals t.long_term pnl;
}
add_term false pnl t = record {
  short_term = add_to_totals t.short_term pnl;
  long_term = t.long_term;
}

unfoldable pub totals_of : TaxCountry → List ClosedPosition → Totals → Totals
totals_of country [] t = t
totals_of country (c ∷ cs) t = totals_of country cs (add_term (is_long_term country c) c.pnl t)

pub record TaxableNetting : Type 0 where
  pub taxable_short_term : ℤ
  pub taxable_long_term : ℤ
  pub capital_loss_after_netting : ℤ

unfoldable pub net_taxable : ℤ → ℤ → TaxableNetting
net_taxable short_net long_net =
    if leb_ℤ (pos 0) short_net && leb_ℤ (pos 0) long_net
    then record {
      taxable_short_term = short_net;
      taxable_long_term = long_net;
      capital_loss_after_netting = pos 0;
    }
    else if leb_ℤ (pos 0) short_net && ltb_ℤ long_net (pos 0)
    then record {
      taxable_short_term = max_ℤ (short_net +ℤ long_net) (pos 0);
      taxable_long_term = pos 0;
      capital_loss_after_netting = min_ℤ (short_net +ℤ long_net) (pos 0);
    }
    else if ltb_ℤ short_net (pos 0) && leb_ℤ (pos 0) long_net
    then record {
      taxable_short_term = pos 0;
      taxable_long_term = max_ℤ (long_net +ℤ short_net) (pos 0);
      capital_loss_after_netting = min_ℤ (long_net +ℤ short_net) (pos 0);
    }
    else record {
      taxable_short_term = pos 0;
      taxable_long_term = pos 0;
      capital_loss_after_netting = short_net +ℤ long_net;
    }
