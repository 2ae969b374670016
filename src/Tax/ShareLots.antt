-- ===== src/Tax/ShareLots.antt =====
-- src/tax.rs: the lots of the UK share matching, and the matching of one disposal against them.
use mlai_trade.Common.{
  ℕ, ◌+◌, ◌-◌, min, Bool, not, ◌&&◌, ◌||◌, List, [], ◌∷◌, ◌++◌, if◌then◌else◌, ltb, leb, ◌==◌,
  String,
}
use mlai_trade.Tax.Positions.{
  ExecutionOrigin, TaxCountry, ClosedPosition, Period, dust, profit, origin_eq, mixed,
}

pub record MatchBuyLot : Type 0 where
  pub date : ℕ
  pub qty_remaining : ℕ
  pub price : ℕ
  pub execution_origin : ExecutionOrigin
  pub pooled : Bool

pub record MatchSellLot : Type 0 where
  pub provider : String
  pub account_ref : String
  pub account_mode : String
  pub paper_account : Bool
  pub symbol : String
  pub date : ℕ
  pub qty_remaining : ℕ
  pub price : ℕ
  pub execution_origin : ExecutionOrigin
  pub asset_market_country : TaxCountry

pub record Section104Pool : Type 0 where
  pub qty : ℕ
  pub cost : ℕ

-- The period is an argument of its own.
pub record MatchedPosition : Type 0 where
  pub entry_date : ℕ
  pub entry_price : ℕ
  pub qty : ℕ
  pub entry_execution_origin : ExecutionOrigin
  pub source : String

abbrev realized : MatchSellLot → MatchedPosition → ClosedPosition
realized sell matched = record {
  provider = sell.provider;
  account_ref = sell.account_ref;
  account_mode = sell.account_mode;
  paper_account = sell.paper_account;
  symbol = sell.symbol;
  qty = matched.qty;
  entry_date = matched.entry_date;
  entry_price = matched.entry_price;
  exit_date = sell.date;
  exit_price = sell.price;
  pnl = profit sell.price matched.entry_price matched.qty;
  entry_execution_origin = matched.entry_execution_origin;
  exit_execution_origin = sell.execution_origin;
  execution_origin =
      if origin_eq matched.entry_execution_origin sell.execution_origin
      then sell.execution_origin
      else mixed;
  asset_market_country = sell.asset_market_country;
  source = matched.source;
}

unfoldable pub push_matched_position :
    Period → List ClosedPosition → MatchSellLot → MatchedPosition → List ClosedPosition
push_matched_position period positions sell matched =
    if ltb sell.date period.start || ltb period.end sell.date || leb matched.qty dust
    then positions
    else positions ++ (realized sell matched ∷ [])

-- A rule of identification.
pub record Rule : Type 0 where
  pub source : String
  pub predicate : MatchBuyLot → ℕ → Bool

abbrev pub same_day : Rule
same_day = record { source = "hmrc_same_day"; predicate = λ buy date. buy.date == date }

abbrev pub thirty_day : Rule
thirty_day = record {
  source = "hmrc_30_day";
  predicate = λ buy date. ltb date buy.date && leb buy.date (date + 30);
}

pub record LotMatch : Type 0 where
  pub buy : MatchBuyLot
  pub sell : MatchSellLot
  pub positions : List ClosedPosition

-- What one lot takes; the filter, and the `break`, behind which the sale takes nothing more.
abbrev pub takes_from : Rule → MatchBuyLot → MatchSellLot → Bool
takes_from rule buy sell =
    ltb dust buy.qty_remaining && rule.predicate buy sell.date && not (leb sell.qty_remaining dust)

abbrev pub take_lot :
    Period → Rule → ℕ → MatchBuyLot → MatchSellLot → List ClosedPosition → LotMatch
take_lot period rule qty buy sell positions = record {
  buy = record buy { qty_remaining = buy.qty_remaining - qty };
  sell = record sell { qty_remaining = sell.qty_remaining - qty };
  positions =
      push_matched_position period positions
        (record sell { qty_remaining = sell.qty_remaining - qty })
        (record {
          entry_date = buy.date;
          entry_price = buy.price;
          qty = qty;
          entry_execution_origin = buy.execution_origin;
          source = rule.source;
        });
}

unfoldable pub match_one :
    Period → Rule → MatchBuyLot → MatchSellLot → List ClosedPosition → LotMatch
match_one period rule buy sell positions =
    if takes_from rule buy sell
    then take_lot period rule (min sell.qty_remaining buy.qty_remaining) buy sell positions
    else record { buy = buy; sell = sell; positions = positions }

pub record SaleMatch : Type 0 where
  pub buys : List MatchBuyLot
  pub sell : MatchSellLot
  pub positions : List ClosedPosition

abbrev add_buy : MatchBuyLot → SaleMatch → SaleMatch
add_buy buy m = record { buys = buy ∷ m.buys; sell = m.sell; positions = m.positions }

unfoldable pub match_buy_lots_to_sell :
    Period → Rule → List MatchBuyLot → MatchSellLot → List ClosedPosition → SaleMatch
unfolding match_one
match_buy_lots_to_sell period rule [] sell positions = record {
  buys = [];
  sell = sell;
  positions = positions;
}
match_buy_lots_to_sell period rule (buy ∷ buys) sell positions =
    let m = match_one period rule buy sell positions in
    add_buy m.buy (match_buy_lots_to_sell period rule buys m.sell m.positions)
