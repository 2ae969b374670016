-- ===== src/WashSales.antt =====
-- The wash-sale monitor of src/auto.rs: the tracker's rows, their insertion behind an exit and out of the
-- synced fills of a tax universe, and the test that keeps a symbol from being bought.
-- A text is the list of its bytes, a date is a day number, a price a whole number of cents and a quantity of
-- billionths of a share, so that prices less than a millionth apart are the same. The rows that the query
-- returns are an argument, each with the clock that stands in for a timestamp that does not parse. A date has
-- no upper end, where the texts of the source are in the order of their dates up to the year 9999.
pub mod Windows
pub mod Lots
pub mod Blocks
pub mod Again
mod Tests
use mlai_trade.Common.{
  same_flag, ℕ, zero, suc, ◌+◌, ◌-◌, ◌*◌, min, Bool, true, false, not, ◌&&◌, Option, none, some,
  List, [], ◌∷◌, ◌++◌, if◌then◌else◌, ltb, leb, ◌==◌, any, length,
}
use mlai_trade.Common.Int.{ℤ, pos, pos_part, leb_ℤ}
use mlai_trade.Tax.Positions.{TaxCountry}
use mlai_trade.Compliance.{tax_country_profile, wash_sale_forward_block_days_for}
use mlai_trade.Remote.Text.{same_text}

-- A time in UTC, to the second.
pub record Moment : Type 0 where
  pub date : ℕ
  pub second : ℕ

abbrev pub same_moment : Moment → Moment → Bool
same_moment a b = (a.date == b.date) && (a.second == b.second)

-- `active` is the only status that the code writes.
pub record Window : Type 0 where
  pub symbol : List ℕ
  pub sell_timestamp_utc : Moment
  pub sell_price : ℕ
  pub loss_amount : ℕ
  pub wash_window_end : ℕ
  pub is_active : Bool
  pub provider : List ℕ
  pub account_ref : List ℕ
  pub paper_account : Bool

pub data Side : Type 0 where
  buy sell other_side : Side

-- A row of the fills: symbol in upper case, quantity and price positive; `utc_now` is the clock when it is read.
pub record SyncedFill : Type 0 where
  pub provider : List ℕ
  pub account_ref : List ℕ
  pub paper_account : Bool
  pub symbol : List ℕ
  pub side : Side
  pub qty : ℕ
  pub price : ℕ
  pub transaction_time : Option Moment
  pub utc_now : Moment

abbrev pub normalize_fill_timestamp_utc : Option Moment → Moment → Moment
normalize_fill_timestamp_utc none utc_now = utc_now
normalize_fill_timestamp_utc (some t) utc_now = t

abbrev pub is_window_of : Bool → List ℕ → Moment → ℕ → Window → Bool
is_window_of paper_account symbol sell_timestamp_utc sell_price w =
    same_flag w.paper_account paper_account
    && same_text w.symbol symbol
    && same_moment w.sell_timestamp_utc sell_timestamp_utc
    && (w.sell_price == sell_price)

unfoldable pub wash_sale_window_exists : List Window → Bool → List ℕ → Moment → ℕ → Bool
wash_sale_window_exists tracker paper_account symbol sell_timestamp_utc sell_price =
    any (is_window_of paper_account symbol sell_timestamp_utc sell_price) tracker

abbrev pub reconciled_window : SyncedFill → ℕ → Moment → ℤ → Window
reconciled_window fill loss_amount timestamp forward = record {
  symbol = fill.symbol;
  sell_timestamp_utc = timestamp;
  sell_price = fill.price;
  loss_amount = loss_amount;
  wash_window_end = timestamp.date + pos_part forward;
  is_active = true;
  provider = fill.provider;
  account_ref = fill.account_ref;
  paper_account = fill.paper_account;
}

-- The exit of an automatic position, with the clock as above.
pub record WashSaleRecord : Type 0 where
  pub provider : List ℕ
  pub account_ref : List ℕ
  pub paper_account : Bool
  pub symbol : List ℕ
  pub sell_price : ℕ
  pub entry_price : ℕ
  pub timestamp_utc : Option Moment
  pub utc_now : Moment

abbrev pub recorded_window : WashSaleRecord → Moment → ℤ → Window
recorded_window exit timestamp forward = record {
  symbol = exit.symbol;
  sell_timestamp_utc = timestamp;
  sell_price = exit.sell_price;
  loss_amount = exit.entry_price - exit.sell_price;
  wash_window_end = timestamp.date + pos_part forward;
  is_active = true;
  provider = exit.provider;
  account_ref = exit.account_ref;
  paper_account = exit.paper_account;
}

-- The tracker, and whether a row is new.
pub record Inserted : Type 0 where
  pub tracker : List Window
  pub inserted : Bool

module _ (tax_country : TaxCountry) (safety_buffer_days : ℤ) where
  abbrev pub forward_days : ℤ
  forward_days = wash_sale_forward_block_days_for tax_country (some safety_buffer_days)

  unfoldable pub insert_reconciled_wash_sale : List Window → SyncedFill → ℕ → Inserted
  unfolding wash_sale_window_exists
  insert_reconciled_wash_sale tracker fill loss_amount =
      let timestamp = normalize_fill_timestamp_utc fill.transaction_time fill.utc_now in
      if leb_ℤ forward_days (pos 0)
      then record { tracker = tracker; inserted = false }
      else if wash_sale_window_exists tracker fill.paper_account fill.symbol timestamp fill.price
      then record { tracker = tracker; inserted = false }
      else record {
        tracker = tracker ++ (reconciled_window fill loss_amount timestamp forward_days ∷ []);
        inserted = true;
      }

  -- An exit is recorded without the test for a row that is there already.
  unfoldable pub record_wash_sale : List Window → WashSaleRecord → List Window
  record_wash_sale tracker exit =
      if leb_ℤ forward_days (pos 0)
      then tracker
      else if ltb exit.sell_price exit.entry_price
      then tracker
        ++ (recorded_window exit (normalize_fill_timestamp_utc exit.timestamp_utc exit.utc_now)
              forward_days
            ∷ [])
      else tracker

-- 0.000001 shares, and 0.000001 of the currency.
abbrev pub qty_dust : ℕ
qty_dust = 1000

abbrev pub loss_dust : ℕ
loss_dust = 100000

pub record FillLot : Type 0 where
  pub qty_remaining : ℕ
  pub price : ℕ

-- The variables of a sale's loop.
pub record Matched : Type 0 where
  pub remaining : ℕ
  pub lots : List FillLot
  pub loss_amount : ℕ
  pub unmatched : ℕ

abbrev pub pop_empty : FillLot → List FillLot → List FillLot
pop_empty front lots = if leb front.qty_remaining qty_dust then lots else front ∷ lots

abbrev pub match_front : ℕ → FillLot → List FillLot → Matched → Matched
match_front price front lots m =
    let matched_qty = min m.remaining front.qty_remaining in
    record {
      remaining = m.remaining - matched_qty;
      lots = pop_empty (record front { qty_remaining = front.qty_remaining - matched_qty }) lots;
      loss_amount =
          if ltb price front.price
          then m.loss_amount + (front.price - price) * matched_qty
          else m.loss_amount;
      unmatched = m.unmatched;
    }

-- One turn on the lots that are left, and whether it breaks.
abbrev pub match_turn : ℕ → Matched → List FillLot → Matched
match_turn price m [] = record m { remaining = 0; unmatched = m.unmatched + m.remaining }
match_turn price m (front ∷ lots) = match_front price front lots m

-- `while remaining > 0.000001`, on fuel; the break sets the rest to 0.
unfoldable pub match_loop : ℕ → ℕ → Matched → Matched
match_loop price zero m = m
match_loop price (suc fuel) m =
    let next = match_loop price fuel (match_turn price m m.lots) in
    if ltb qty_dust m.remaining then next else m

-- Each turn ends the sale or uses up a lot.
unfoldable pub match_fill_lots : SyncedFill → List FillLot → Matched
unfolding match_loop
match_fill_lots fill lots =
    match_loop fill.price (suc (length lots))
      (record { remaining = fill.qty; lots = lots; loss_amount = 0; unmatched = 0 })

abbrev pub Book : Type 0
Book = List ℕ → List FillLot

abbrev pub set_lots : List ℕ → List FillLot → Book → Book
set_lots symbol lots book s = if same_text symbol s then lots else book s

pub record Summary : Type 0 where
  pub fills_scanned : ℕ
  pub sell_fills : ℕ
  pub loss_sells : ℕ
  pub windows_inserted : ℕ
  pub windows_existing : ℕ
  pub unmatched_sell_qty : ℕ

pub record Reconciled : Type 0 where
  pub tracker : List Window
  pub summary : Summary

abbrev pub count_window : Bool → Summary → Summary
count_window true s = record s { windows_inserted = suc s.windows_inserted }
count_window false s = record s { windows_existing = suc s.windows_existing }

abbrev pub count_sell : ℕ → Summary → Summary
count_sell unmatched s = record s {
  sell_fills = suc s.sell_fills;
  unmatched_sell_qty = s.unmatched_sell_qty + unmatched;
}

-- What a fill does to the lots of its symbol.
abbrev pub lots_after : Side → SyncedFill → Book → Book
lots_after buy fill book =
    set_lots fill.symbol
      (book fill.symbol ++ (record { qty_remaining = fill.qty; price = fill.price } ∷ [])) book
lots_after sell fill book = set_lots fill.symbol (match_fill_lots fill (book fill.symbol)).lots book
lots_after other_side fill book = book

abbrev pub no_lots : Book
no_lots symbol = []

abbrev pub at_start : List SyncedFill → List Window → Reconciled
at_start fills tracker = record {
  tracker = tracker;
  summary = record {
    fills_scanned = length fills;
    sell_fills = 0;
    loss_sells = 0;
    windows_inserted = 0;
    windows_existing = 0;
    unmatched_sell_qty = 0;
  };
}

module _ (tax_country : TaxCountry) (safety_buffer_days : ℤ) where
  -- The part of a sale behind its loop.
  unfoldable pub after_loss : SyncedFill → ℕ → Reconciled → Reconciled
  unfolding insert_reconciled_wash_sale
  after_loss fill loss_amount r =
      let answer =
        insert_reconciled_wash_sale tax_country safety_buffer_days r.tracker fill loss_amount in
      if ltb loss_dust loss_amount
      then record {
        tracker = answer.tracker;
        summary =
            count_window answer.inserted
              (record r.summary { loss_sells = suc r.summary.loss_sells });
      }
      else r

  -- What a fill does to the tracker and the counts.
  abbrev pub counts_after : Side → SyncedFill → Book → Reconciled → Reconciled
  counts_after buy fill book r = r
  counts_after sell fill book r =
      let m = match_fill_lots fill (book fill.symbol) in
      after_loss fill m.loss_amount
        (record { tracker = r.tracker; summary = count_sell m.unmatched r.summary })
  counts_after other_side fill book r = r

  unfoldable pub reconcile_loop : List SyncedFill → Book → Reconciled → Reconciled
  unfolding after_loss match_fill_lots
  reconcile_loop [] book r = r
  reconcile_loop (fill ∷ fills) book r =
      reconcile_loop fills (lots_after fill.side fill book) (counts_after fill.side fill book r)

  unfoldable pub reconcile_wash_sales_for_tax_universe : List SyncedFill → List Window → Reconciled
  unfolding reconcile_loop
  reconcile_wash_sales_for_tax_universe fills tracker =
      if not (tax_country_profile tax_country).wash_sale_blocking_enabled
      then at_start [] tracker
      else reconcile_loop fills no_lots (at_start fills tracker)

abbrev pub is_blocking : Bool → List ℕ → ℕ → Window → Bool
is_blocking is_paper symbol today w =
    same_text w.symbol symbol
    && w.is_active
    && leb today w.wash_window_end
    && same_flag w.paper_account is_paper

unfoldable pub has_wash_sale_window : TaxCountry → List Window → Bool → List ℕ → ℕ → Bool
has_wash_sale_window tax_country tracker is_paper symbol today =
    if not (tax_country_profile tax_country).wash_sale_blocking_enabled
    then false
    else any (is_blocking is_paper symbol today) tracker
