-- ===== src/Tax/ShareMatching/Tests.antt =====
-- Runs of the UK share matching, and the theorems at concrete inputs.
use mlai_trade.Common.{ℕ, ◌+◌, ◌≡◌, refl, false, List, [], ◌∷◌, map}
use mlai_trade.Tax.Positions.{ClosedPosition, Period, provider_external, gb}
use mlai_trade.Tax.ShareLots.{
  MatchBuyLot, MatchSellLot, match_buy_lots_to_sell, match_one, push_matched_position,
}
use mlai_trade.Tax.ShareMatching.{
  match_key, match_sales, match_dates, match_date, pool_lots, pool_sales,
  match_section104_pool_to_sell, sort_buys, sort_sells,
}
use mlai_trade.Tax.ShareMatching.Conservation.{match_key_conserves, total_buys, total_sells}

abbrev buy_of : ℕ → ℕ → ℕ → MatchBuyLot
buy_of date qty price = record {
  date = date;
  qty_remaining = qty;
  price = price;
  execution_origin = provider_external;
  pooled = false;
}

abbrev sell_of : ℕ → ℕ → ℕ → MatchSellLot
sell_of date qty price = record {
  provider = "ibkr";
  account_ref = "u1";
  account_mode = "live";
  paper_account = false;
  symbol = "VOD";
  date = date;
  qty_remaining = qty;
  price = price;
  execution_origin = provider_external;
  asset_market_country = gb;
}

abbrev tax_year : Period
tax_year = record { start = 0; end = 365; include_paper = false }

-- Bought before, on and soon after the day of the sale.
abbrev three_buys : List MatchBuyLot
three_buys = buy_of 110 1000 8 ∷ buy_of 50 4000 5 ∷ buy_of 100 1000 7 ∷ []

abbrev one_sale : List MatchSellLot
one_sale = sell_of 100 3500 9 ∷ []

sources_in_order :
    map (λ (c : ClosedPosition). c.source) (match_key tax_year three_buys one_sale []).positions
    ≡ "hmrc_same_day" ∷ "hmrc_30_day" ∷ "hmrc_section_104" ∷ []
unfolding match_key match_sales match_dates match_date match_one match_buy_lots_to_sell pool_lots
    pool_sales match_section104_pool_to_sell push_matched_position sort_buys sort_sells
sources_in_order = refl

match_key_conserves_example :
    total_buys three_buys + total_sells (match_key tax_year three_buys one_sale []).sells
    ≡ total_buys (match_key tax_year three_buys one_sale []).buys
      + (match_key tax_year three_buys one_sale []).pool.qty
      + total_sells one_sale
match_key_conserves_example = match_key_conserves tax_year three_buys one_sale []
