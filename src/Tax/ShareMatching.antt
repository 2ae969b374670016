-- ===== src/Tax/ShareMatching.antt =====
-- src/tax.rs `load_gb_share_matching_positions` for the lots of one key: same-day, 30-day and pool
-- matching. The average price of the pool is rounded down to a unit of price.
pub mod Conservation
pub mod Rules
mod Tests
use mlai_trade.Common.{
  ℕ, zero, suc, ◌+◌, ◌-◌, ◌*◌, ◌/◌, min, Bool, true, false, not, ◌&&◌, ◌||◌, List, [], ◌∷◌, ◌++◌,
  if◌then◌else◌, ltb, leb, ◌==◌, String,
}
use mlai_trade.Tax.Positions.{
  ExecutionOrigin, TaxCountry, ClosedPosition, Period, dust, profit, origin_eq, mixed, in_period,
}
use mlai_trade.Tax.ShareLots.{
  MatchBuyLot, MatchSellLot, Section104Pool, MatchedPosition, push_matched_position, Rule, same_day,
  thirty_day, LotMatch, takes_from, take_lot, match_one, SaleMatch, match_buy_lots_to_sell,
}

-- The lots and the result of one key.
pub record GbState : Type 0 where
  pub buys : List MatchBuyLot
  pub sells : List MatchSellLot
  pub pool : Section104Pool
  pub positions : List ClosedPosition

abbrev add_sell : MatchSellLot → GbState → GbState
add_sell sell s = record s { sells = sell ∷ s.sells }

abbrev match_sale :
    Period → Rule → Bool → List MatchBuyLot → MatchSellLot → List ClosedPosition → SaleMatch
match_sale period rule true buys sell positions =
    match_buy_lots_to_sell period rule buys sell positions
match_sale period rule false buys sell positions = record {
  buys = buys;
  sell = sell;
  positions = positions;
}

-- The loops over the sales that call `match_buy_lots_to_sell`, with their filter.
unfoldable pub match_sales :
    Period
    → Rule
    → (MatchSellLot → Bool)
    → List MatchSellLot
    → List MatchBuyLot
    → Section104Pool
    → List ClosedPosition
    → GbState
unfolding match_buy_lots_to_sell
match_sales period rule wanted [] buys pool positions = record {
  buys = buys;
  sells = [];
  pool = pool;
  positions = positions;
}
match_sales period rule wanted (sell ∷ sells) buys pool positions =
    let m = match_sale period rule (wanted sell) buys sell positions in
    add_sell m.sell (match_sales period rule wanted sells m.buys pool m.positions)

abbrev pub is_open_on : ℕ → MatchSellLot → Bool
is_open_on date sell = (sell.date == date) && ltb dust sell.qty_remaining

pub record Pooling : Type 0 where
  pub buys : List MatchBuyLot
  pub pool : Section104Pool

abbrev add_pooled : MatchBuyLot → Pooling → Pooling
add_pooled buy p = record { buys = buy ∷ p.buys; pool = p.pool }

-- The loop that moves the older lots into the pool.
abbrev pool_lot : Bool → MatchBuyLot → Section104Pool → Section104Pool
pool_lot true buy pool = record {
  qty = pool.qty + buy.qty_remaining;
  cost = pool.cost + buy.qty_remaining * buy.price;
}
pool_lot false buy pool = pool

abbrev empty_lot : Bool → MatchBuyLot → MatchBuyLot
empty_lot true buy = record buy { qty_remaining = 0; pooled = true }
empty_lot false buy = buy

abbrev goes_to_pool : ℕ → MatchBuyLot → Bool
goes_to_pool date buy = not buy.pooled && ltb buy.date date && ltb dust buy.qty_remaining

unfoldable pub pool_lots : ℕ → List MatchBuyLot → Section104Pool → Pooling
pool_lots date [] pool = record { buys = []; pool = pool }
pool_lots date (buy ∷ buys) pool =
    add_pooled (empty_lot (goes_to_pool date buy) buy)
      (pool_lots date buys (pool_lot (goes_to_pool date buy) buy pool))

pub record PoolMatch : Type 0 where
  pub pool : Section104Pool
  pub sell : MatchSellLot
  pub positions : List ClosedPosition

abbrev pub take_pool :
    Period → ℕ → ℕ → Section104Pool → MatchSellLot → List ClosedPosition → PoolMatch
take_pool period avg_price qty pool sell positions = record {
  pool = record { qty = pool.qty - qty; cost = pool.cost - avg_price * qty };
  sell = record sell { qty_remaining = sell.qty_remaining - qty };
  positions =
      push_matched_position period positions
        (record sell { qty_remaining = sell.qty_remaining - qty })
        (record {
          entry_date = sell.date;
          entry_price = avg_price;
          qty = qty;
          entry_execution_origin = mixed;
          source = "hmrc_section_104";
        });
}

-- The pool's cost stops at 0 as in the source.
unfoldable pub match_section104_pool_to_sell :
    Period → Section104Pool → MatchSellLot → List ClosedPosition → PoolMatch
match_section104_pool_to_sell period pool sell positions =
    if leb pool.qty dust || leb sell.qty_remaining dust
    then record { pool = pool; sell = sell; positions = positions }
    else take_pool period (pool.cost / pool.qty) (min sell.qty_remaining pool.qty) pool sell
        positions

abbrev match_pool : Period → Bool → Section104Pool → MatchSellLot → List ClosedPosition → PoolMatch
match_pool period true pool sell positions =
    match_section104_pool_to_sell period pool sell positions
match_pool period false pool sell positions = record {
  pool = pool;
  sell = sell;
  positions = positions;
}

unfoldable pub pool_sales :
    Period
    → (MatchSellLot → Bool)
    → List MatchSellLot
    → List MatchBuyLot
    → Section104Pool
    → List ClosedPosition
    → GbState
unfolding match_section104_pool_to_sell
pool_sales period wanted [] buys pool positions = record {
  buys = buys;
  sells = [];
  pool = pool;
  positions = positions;
}
pool_sales period wanted (sell ∷ sells) buys pool positions =
    let m = match_pool period (wanted sell) pool sell positions in
    add_sell m.sell (pool_sales period wanted sells buys m.pool m.positions)

-- The body of the loop over the dates.
unfoldable pub match_date : Period → ℕ → GbState → GbState
unfolding match_sales pool_lots pool_sales
match_date period date s =
    let later = match_sales period thirty_day (is_open_on date) s.sells s.buys s.pool s.positions in
    let p = pool_lots date later.buys later.pool in
    pool_sales period (is_open_on date) later.sells p.buys p.pool later.positions

-- The ordered set of the dates of the sales that are open.
abbrev insert_date : ℕ → List ℕ → List ℕ
insert_date d [] = d ∷ []
insert_date d (e ∷ es) =
    let rest = insert_date d es in
    if ltb d e then d ∷ e ∷ es else if d == e then e ∷ es else e ∷ rest

abbrev open_dates : List MatchSellLot → List ℕ
open_dates [] = []
open_dates (sell ∷ sells) =
    let rest = open_dates sells in
    if ltb dust sell.qty_remaining then insert_date sell.date rest else rest

unfoldable pub match_dates : Period → List ℕ → GbState → GbState
unfolding match_date
match_dates period [] s = s
match_dates period (date ∷ dates) s = match_dates period dates (match_date period date s)

-- `sort_by_key`, which is stable.
abbrev insert_buy : MatchBuyLot → List MatchBuyLot → List MatchBuyLot
insert_buy b [] = b ∷ []
insert_buy b (c ∷ cs) =
    let rest = insert_buy b cs in if leb b.date c.date then b ∷ c ∷ cs else c ∷ rest

unfoldable pub sort_buys : List MatchBuyLot → List MatchBuyLot
sort_buys [] = []
sort_buys (b ∷ bs) = insert_buy b (sort_buys bs)

abbrev insert_sell : MatchSellLot → List MatchSellLot → List MatchSellLot
insert_sell b [] = b ∷ []
insert_sell b (c ∷ cs) =
    let rest = insert_sell b cs in if leb b.date c.date then b ∷ c ∷ cs else c ∷ rest

unfoldable pub sort_sells : List MatchSellLot → List MatchSellLot
sort_sells [] = []
sort_sells (b ∷ bs) = insert_sell b (sort_sells bs)

-- The body of the loop over the keys.
unfoldable pub match_key :
    Period → List MatchBuyLot → List MatchSellLot → List ClosedPosition → GbState
unfolding match_sales match_dates sort_buys sort_sells
match_key period buys sells positions =
    let first =
      match_sales period same_day (λ sell. true) (sort_sells sells) (sort_buys buys)
        (record { qty = 0; cost = 0 }) positions in
    match_dates period (open_dates first.sells) first
