-- ===== src/Tax/Fifo/Tests.antt =====
-- Runs of the first-in first-out matching, and the theorems at concrete inputs.
use mlai_trade.Common.{
  ℕ, suc, ◌+◌, ◌*◌, ◌≤◌, ◌≡◌, refl, ◌⊎◌, inr, false, List, [], ◌∷◌, String, arith, length, map,
  keep,
}
use mlai_trade.Common.Int.{pos, negsuc, ◌-ℤ◌, ◌*ℤ◌}
use mlai_trade.Tax.Positions.{
  FillActivity, OpenLot, ClosedPosition, Period, provider_external, us, dust, in_period,
}
use mlai_trade.Tax.Fifo.{
  Report, sell_lots, load_provider_fill_positions, apply_fills, apply_fill, apply_sell, fifo_loop,
  fifo_turn, match_lot, push_front, push_match,
}
use mlai_trade.Tax.Fifo.Conservation.{sell_lots_conserves, total_qty}
use mlai_trade.Tax.Fifo.Matches.{IsWithin}
use mlai_trade.Tax.Fifo.Periods.{IsOrdered, load_provider_fill_positions-period}

abbrev fill_of : String → ℕ → ℕ → ℕ → FillActivity
fill_of side qty price date = record {
  provider = "alpaca";
  account_ref = "a1";
  account_mode = "live";
  paper_account = false;
  symbol = "AAPL";
  side = side;
  qty = qty;
  price = price;
  date = date;
  execution_origin = provider_external;
  asset_market_country = us;
}

abbrev bought_twice : List FillActivity
bought_twice =
    fill_of "buy" 1000 5 10
    ∷ fill_of "buy" 3000 7 11
    ∷ fill_of "sell" 2000 9 20
    ∷ fill_of "sell" 2500 4 30
    ∷ []

abbrev first_month : Period
first_month = record { start = 0; end = 25; include_paper = false }

abbrev whole_year : Period
whole_year = record { start = 0; end = 365; include_paper = false }

profits :
    map
      (λ (c : ClosedPosition). c.pnl)
      (load_provider_fill_positions whole_year bought_twice).positions
    ≡ pos 4000 ∷ pos 2000 ∷ negsuc 5999 ∷ []
unfolding load_provider_fill_positions apply_fills apply_fill apply_sell sell_lots fifo_loop
    fifo_turn match_lot push_front push_match ◌-ℤ◌ ◌*ℤ◌
profits = refl

abbrev two_lots : List OpenLot
two_lots =
    record { date = 10; qty = 1000; price = 5; execution_origin = provider_external }
    ∷ record { date = 11; qty = 3000; price = 7; execution_origin = provider_external }
    ∷ []

abbrev nothing_reported : Report
nothing_reported = record { positions = []; excluded_paper = 0 }

sell_lots_conserves_example :
    let sold = sell_lots whole_year (fill_of "sell" 2000 9 20) two_lots nothing_reported in
    ((sold.remaining ≤ dust) ⊎ (sold.account_lots ≡ []))
    × (sold.remaining ≤ 2000)
    × (total_qty sold.account_lots + 2000 ≤ total_qty two_lots + sold.remaining)
    × (total_qty two_lots + sold.remaining
        ≤ total_qty sold.account_lots + 2000 + suc (length two_lots) * dust)
sell_lots_conserves_example =
    sell_lots_conserves whole_year (fill_of "sell" 2000 9 20) two_lots nothing_reported

month_in_year : IsWithin first_month whole_year
month_in_year = record { starts = omega arith; ends = omega arith; paper = refl }

-- All four are of one key.
bought_twice-IsOrdered : IsOrdered bought_twice
bought_twice-IsOrdered = (
  (inr (omega arith), (inr (omega arith), (inr (omega arith), tt))),
  ((inr (omega arith), (inr (omega arith), tt)), ((inr (omega arith), tt), (tt, tt))),
)

load_provider_fill_positions-period_example :
    (load_provider_fill_positions first_month bought_twice).positions
    ≡ keep
        (λ (c : ClosedPosition). in_period first_month c.exit_date)
        (load_provider_fill_positions whole_year bought_twice).positions
load_provider_fill_positions-period_example =
    load_provider_fill_positions-period first_month whole_year bought_twice month_in_year
      bought_twice-IsOrdered
