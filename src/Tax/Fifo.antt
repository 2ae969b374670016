-- ===== src/Tax/Fifo.antt =====
-- src/tax.rs `load_provider_fill_positions`: first-in first-out lots. The argument is the table in the
-- order of the query, without the fills of orders of the automatic trades; the query's bound on the date and
-- the test for a positive quantity and price are here.
pub mod Conservation
pub mod Matches
pub mod Periods
mod Tests
use text.Mathlib.Text.{◌==◌ as str_eq}
use mlai_trade.Common.{
  same_flag, ℕ, zero, suc, ◌+◌, ◌-◌, min, Bool, true, false, not, ◌&&◌, ◌||◌, List, [], ◌∷◌, ◌++◌,
  if◌then◌else◌, length, ltb, leb, keep, String,
}
use mlai_trade.Tax.Positions.{
  FillActivity, OpenLot, ClosedPosition, Period, dust, profit, origin_eq, mixed, in_period,
}

-- The result under construction: `positions` and `excluded_paper`.
pub record Report : Type 0 where
  pub positions : List ClosedPosition
  pub excluded_paper : ℕ

abbrev pub closed : FillActivity → OpenLot → ℕ → ClosedPosition
closed fill lot matched_qty = record {
  provider = fill.provider;
  account_ref = fill.account_ref;
  account_mode = fill.account_mode;
  paper_account = fill.paper_account;
  symbol = fill.symbol;
  qty = matched_qty;
  entry_date = lot.date;
  entry_price = lot.price;
  exit_date = fill.date;
  exit_price = fill.price;
  pnl = profit fill.price lot.price matched_qty;
  entry_execution_origin = lot.execution_origin;
  exit_execution_origin = fill.execution_origin;
  execution_origin =
      if origin_eq lot.execution_origin fill.execution_origin then fill.execution_origin else mixed;
  asset_market_country = fill.asset_market_country;
  source = "provider_fill_activities";
}

-- The two `continue`s and the push.
unfoldable pub push_match : Period → FillActivity → OpenLot → ℕ → Report → Report
push_match period fill lot matched_qty report =
    if ltb fill.date period.start || ltb period.end fill.date
    then report
    else if fill.paper_account && not period.include_paper
    then record { positions = report.positions; excluded_paper = suc report.excluded_paper }
    else record {
      positions = report.positions ++ (closed fill lot matched_qty ∷ []);
      excluded_paper = report.excluded_paper;
    }

pub record Matching : Type 0 where
  pub remaining : ℕ
  pub account_lots : List OpenLot
  pub report : Report

-- The lots behind a partly used front lot.
unfoldable pub push_front : OpenLot → ℕ → List OpenLot → List OpenLot
push_front lot left lots = if ltb dust left then record lot { qty = left } ∷ lots else lots

-- One turn of the loop on the lot that was popped.
unfoldable pub match_lot : Period → FillActivity → OpenLot → List OpenLot → ℕ → Report → Matching
match_lot period fill lot lots remaining report = record {
  remaining = remaining - min remaining lot.qty;
  account_lots = push_front lot (lot.qty - min remaining lot.qty) lots;
  report = push_match period fill lot (min remaining lot.qty) report;
}

unfoldable pub fifo_turn : Period → FillActivity → List OpenLot → ℕ → Report → Matching
unfolding match_lot
fifo_turn period fill [] remaining report = record {
  remaining = remaining;
  account_lots = [];
  report = report;
}
fifo_turn period fill (lot ∷ lots) remaining report =
    match_lot period fill lot lots remaining report

-- `while remaining > 0.0000001`, on fuel.
unfoldable pub fifo_loop : Period → FillActivity → ℕ → Matching → Matching
unfolding fifo_turn
fifo_loop period fill zero m = m
fifo_loop period fill (suc fuel) m =
    let next =
      fifo_loop period fill fuel (fifo_turn period fill m.account_lots m.remaining m.report) in
    if ltb dust m.remaining then next else m

-- Each turn ends the sale or uses up a lot.
unfoldable pub sell_lots : Period → FillActivity → List OpenLot → Report → Matching
unfolding fifo_loop
sell_lots period fill lots report =
    fifo_loop period fill (suc (length lots))
      (record { remaining = fill.qty; account_lots = lots; report = report })

-- The map of the lots, empty at a missing key.
pub record Key : Type 0 where
  pub provider : String
  pub account_ref : String
  pub paper_account : Bool
  pub symbol : String

abbrev pub key_of : FillActivity → Key
key_of fill = record {
  provider = fill.provider;
  account_ref = fill.account_ref;
  paper_account = fill.paper_account;
  symbol = fill.symbol;
}

abbrev pub key_eq : Key → Key → Bool
key_eq a b =
    str_eq a.provider b.provider
    && str_eq a.account_ref b.account_ref
    && same_flag a.paper_account b.paper_account
    && str_eq a.symbol b.symbol

abbrev pub set_lots : Key → List OpenLot → (Key → List OpenLot) → Key → List OpenLot
set_lots key lots book k = if key_eq key k then lots else book k

abbrev opened : FillActivity → OpenLot
opened fill = record {
  date = fill.date;
  qty = fill.qty;
  price = fill.price;
  execution_origin = fill.execution_origin;
}

pub record Books : Type 0 where
  pub lots : Key → List OpenLot
  pub report : Report

-- The body of the loop over the fills.
unfoldable pub apply_sell : FillActivity → Books → Matching → Books
apply_sell fill books sold = record {
  lots = set_lots (key_of fill) sold.account_lots books.lots;
  report = sold.report;
}

unfoldable pub apply_fill : Period → FillActivity → Books → Books
unfolding sell_lots apply_sell
apply_fill period fill books =
    if str_eq fill.side "buy"
    then record {
      lots = set_lots (key_of fill) (books.lots (key_of fill) ++ (opened fill ∷ [])) books.lots;
      report = books.report;
    }
    else if not (str_eq fill.side "sell")
    then books
    else apply_sell fill books (sell_lots period fill (books.lots (key_of fill)) books.report)

unfoldable pub apply_fills : Period → List FillActivity → Books → Books
unfolding apply_fill
apply_fills period [] books = books
apply_fills period (fill ∷ fills) books = apply_fills period fills (apply_fill period fill books)

abbrev pub no_books : Books
no_books = record { lots = λ k. []; report = record { positions = []; excluded_paper = 0 } }

-- The fills up to the end of the period, of any date before it, with a positive quantity and price.
abbrev pub is_queried : Period → FillActivity → Bool
is_queried period fill = leb fill.date period.end && ltb 0 fill.qty && ltb 0 fill.price

unfoldable pub load_provider_fill_positions : Period → List FillActivity → Report
unfolding apply_fills
load_provider_fill_positions period rows =
    (apply_fills period (keep (is_queried period) rows) no_books).report
