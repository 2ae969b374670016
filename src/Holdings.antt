-- ===== src/Holdings.antt =====
-- src/auto.rs `reconcile_open_positions_with_provider`: the open automatic positions against the shares that
-- the provider reports. A whole share is 10^9, a price is a whole number of cents, a text the list of its
-- bytes. The table holds the rows of one account by their ids; what the queries of the exits, the entry
-- orders and the day's purchases return are arguments. The log lines and the percentages are left out.
pub mod Turns
pub mod Rows
pub mod Shares
pub mod Blocked
pub mod InStep
mod Tests
use mlai_trade.Common.{
  ℕ, zero, suc, ◌+◌, ◌-◌, ◌*◌, ◌/◌, Bool, true, false, not, ◌&&◌, ◌||◌, Option, none, some, List,
  [], ◌∷◌, ◌++◌, if◌then◌else◌, ltb, leb, ◌==◌, any,
}
use mlai_trade.Common.Int.{ℤ, pos, leb_ℤ, ltb_ℤ, ◌-ℤ◌, ◌*ℤ◌, pos_part}
use mlai_trade.Tax.Positions.{ExecutionOrigin, provider_external, TaxCountry, profit}
use mlai_trade.Buying.{OrderStatus, provider_order_status_is_terminal}
use mlai_trade.Remote.Text.{same_text, trim, to_ascii_uppercase}
use mlai_trade.WashSales.{
  Moment, Window, normalize_fill_timestamp_utc, WashSaleRecord, record_wash_sale,
}
use mlai_trade.Candidates.{Account, PositionStatus, opened, closed}
use mlai_trade.Origin.{combine, is_blank}

abbrev pub share : ℕ
share = 1000000000

pub record OpenAutoPosition : Type 0 where
  pub id : ℕ
  pub symbol : List ℕ
  pub entry_price : ℕ
  pub shares : ℕ
  pub cost_basis : ℕ
  pub order_id : Option (List ℕ)
  pub entry_execution_origin : ExecutionOrigin

pub data Reason : Type 0 where
  provider_sync_closed provider_sync_partial : Reason

-- A row of the table; `exit_reason` and what follows is empty while the row is open.
pub record Row : Type 0 where
  pub symbol : List ℕ
  pub entry_price : ℕ
  pub shares : ℕ
  pub cost_basis : ℕ
  pub status : PositionStatus
  pub exit_date : Option ℕ
  pub exit_price : Option ℕ
  pub exit_reason : Option Reason
  pub pnl : Option ℤ
  pub exit_order_id : Option (List ℕ)
  pub entry_execution_origin : ExecutionOrigin
  pub exit_execution_origin : Option ExecutionOrigin
  pub execution_origin : ExecutionOrigin

-- The newest provider's sale since the entry, with its time if it parses.
pub record ProviderExitFill : Type 0 where
  pub timestamp : Option Moment
  pub price : ℕ
  pub order_id : Option (List ℕ)
  pub execution_origin : ExecutionOrigin

pub record ProviderPosition : Type 0 where
  pub symbol : List ℕ
  pub qty : ℤ

-- The quantities are zero where the provider gives none.
pub record OrderSnapshot : Type 0 where
  pub status : OrderStatus
  pub filled_qty : ℤ
  pub qty : ℤ

pub record DayTrade : Type 0 where
  pub symbol : List ℕ
  pub sold_at : Moment

pub record World : Type 0 where
  pub account : Account
  pub tax_country : TaxCountry
  pub safety_buffer_days : ℤ
  pub provider_positions : List ProviderPosition
  pub latest_provider_sell_exit : OpenAutoPosition → Option ProviderExitFill
  pub order_snapshot : List ℕ → Option OrderSnapshot
  pub bought_on : List ℕ → ℕ → Bool
  pub now : Moment

-- The map is filled from the front, so the last positive quantity of a symbol stands.
unfoldable pub provider_shares : List ProviderPosition → List ℕ → ℕ → ℕ
provider_shares [] symbol found = found
provider_shares (p ∷ ps) symbol found =
    let listed = to_ascii_uppercase (trim p.symbol) in
    provider_shares ps symbol (
      if not (same_text listed []) && ltb_ℤ (pos 0) p.qty && same_text listed symbol
      then pos_part p.qty
      else found)

abbrev is_filled : OrderStatus → Bool
is_filled OrderStatus.filled = true
is_filled _ = false

abbrev is_unfilled : Option OrderSnapshot → Bool
is_unfilled none = true
is_unfilled (some o) =
    if provider_order_status_is_terminal o.status
      && (leb_ℤ o.qty (pos 0) || leb_ℤ o.filled_qty (pos 0))
    then false
    else not (is_filled o.status) || (ltb_ℤ (pos 0) o.qty && ltb_ℤ o.filled_qty o.qty)

unfoldable pub entry_order_is_unfilled_or_active : World → Option (List ℕ) → Bool
entry_order_is_unfilled_or_active w none = false
entry_order_is_unfilled_or_active w (some order_id) =
    if is_blank order_id then false else is_unfilled (w.order_snapshot order_id)

-- The database's table and its next id, the other two tables, and the positions that stay.
pub record State : Type 0 where
  pub rows : ℕ → Option Row
  pub next_id : ℕ
  pub wash_sale_tracker : List Window
  pub day_trades : List DayTrade
  pub kept : List OpenAutoPosition

abbrev pub map_row : (Row → Row) → Option Row → Option Row
map_row f none = none
map_row f (some row) = some (f row)

-- `UPDATE ... WHERE id` and `INSERT ... SELECT ... WHERE id`.
abbrev pub update_row : ℕ → (Row → Row) → (ℕ → Option Row) → ℕ → Option Row
update_row id f rows i = if i == id then map_row f (rows i) else rows i

abbrev pub insert_at : ℕ → Option Row → (ℕ → Option Row) → ℕ → Option Row
insert_at next none rows i = rows i
insert_at next (some row) rows i = if i == next then some row else rows i

abbrev pub insert_copy : ℕ → (Row → Row) → State → State
insert_copy id f s = record s {
  rows = insert_at s.next_id (map_row f (s.rows id)) s.rows;
  next_id = suc s.next_id;
}

abbrev exit_origin : Option ProviderExitFill → ExecutionOrigin
exit_origin none = provider_external
exit_origin (some fill) = fill.execution_origin

-- An exit whose time does not parse closes at the clock's date, and so does one without a fill.
abbrev exit_day : World → Option ProviderExitFill → ℕ
exit_day w none = w.now.date
exit_day w (some fill) = (normalize_fill_timestamp_utc fill.timestamp w.now).date

abbrev positive_price : Option ProviderExitFill → Option ℕ
positive_price none = none
positive_price (some fill) = if ltb 0 fill.price then some fill.price else none

abbrev pnl_at : OpenAutoPosition → Option ℕ → Option ℤ
pnl_at p none = none
pnl_at p (some price) = some (profit price p.entry_price p.shares)

abbrev named_order : Option (List ℕ) → Option (List ℕ) → Option (List ℕ)
named_order none old = old
named_order (some order_id) old = if is_blank order_id then old else some order_id

abbrev exit_order : Option ProviderExitFill → Option (List ℕ)
exit_order none = none
exit_order (some fill) = fill.order_id

abbrev pub closed_row : World → OpenAutoPosition → Option ProviderExitFill → Row → Row
closed_row w p exit row = record row {
  status = closed;
  exit_date = some (exit_day w exit);
  exit_price = positive_price exit;
  exit_reason = some provider_sync_closed;
  pnl = pnl_at p (positive_price exit);
  exit_order_id = named_order (exit_order exit) row.exit_order_id;
  exit_execution_origin = some (exit_origin exit);
  execution_origin = combine p.entry_execution_origin (exit_origin exit);
}

abbrev pub partial_row : World → OpenAutoPosition → ℕ → ProviderExitFill → Row → Row
partial_row w p sold_shares fill row = record row {
  shares = sold_shares;
  cost_basis = row.entry_price * sold_shares;
  status = closed;
  exit_date = some (exit_day w (some fill));
  exit_price = some fill.price;
  exit_reason = some provider_sync_partial;
  pnl = some (profit fill.price row.entry_price sold_shares);
  exit_order_id = fill.order_id;
  exit_execution_origin = some fill.execution_origin;
  execution_origin = combine p.entry_execution_origin fill.execution_origin;
}

unfoldable pub record_day_trade : World → List ℕ → Option Moment → List DayTrade → List DayTrade
record_day_trade w symbol timestamp_utc day_trades =
    let timestamp = normalize_fill_timestamp_utc timestamp_utc w.now in
    if w.bought_on symbol timestamp.date
    then day_trades ++ (record { symbol = symbol; sold_at = timestamp } ∷ [])
    else day_trades

abbrev pub exit_record : World → OpenAutoPosition → ProviderExitFill → WashSaleRecord
exit_record w p fill = record {
  provider = w.account.provider;
  account_ref = w.account.account_ref;
  paper_account = w.account.is_paper;
  symbol = p.symbol;
  sell_price = fill.price;
  entry_price = p.entry_price;
  timestamp_utc = fill.timestamp;
  utc_now = w.now;
}

-- The calls behind an exit fill.
unfoldable pub record_exit : World → OpenAutoPosition → Option ProviderExitFill → State → State
unfolding record_wash_sale record_day_trade
record_exit w p none s = s
record_exit w p (some fill) s = record s {
  wash_sale_tracker =
      record_wash_sale w.tax_country w.safety_buffer_days s.wash_sale_tracker
        (exit_record w p fill);
  day_trades = record_day_trade w p.symbol fill.timestamp s.day_trades;
}

abbrev pub keep_position : OpenAutoPosition → State → State
keep_position p s = record s { kept = s.kept ++ (p ∷ []) }

-- Less than one share at the provider.
unfoldable pub absent : World → OpenAutoPosition → Option ProviderExitFill → Bool → State → State
unfolding record_exit
absent w p none true s = keep_position p s
absent w p none false s = record s { rows = update_row p.id (closed_row w p none) s.rows }
absent w p (some fill) unfilled s =
    record_exit w p (some fill)
      (record s { rows = update_row p.id (closed_row w p (some fill)) s.rows })

-- The position with the provider's whole shares, in memory and in the table.
abbrev pub with_shares : ℕ → OpenAutoPosition → OpenAutoPosition
with_shares adjusted_shares p = record p {
  shares = adjusted_shares;
  cost_basis = p.entry_price * adjusted_shares;
}

abbrev pub row_with_shares : ℕ → OpenAutoPosition → Row → Row
row_with_shares adjusted_shares p row = record row {
  shares = adjusted_shares;
  cost_basis = p.entry_price * adjusted_shares;
}

abbrev pub adjust : ℕ → OpenAutoPosition → State → State
adjust adjusted_shares p s =
    keep_position (with_shares adjusted_shares p)
      (record s { rows = update_row p.id (row_with_shares adjusted_shares p) s.rows })

-- The closed row of the shares that are sold, if an exit is found.
unfoldable pub split_off : World → OpenAutoPosition → ℕ → Option ProviderExitFill → State → State
unfolding record_exit
split_off w p sold_shares none s = s
split_off w p sold_shares (some fill) s =
    record_exit w p (some fill) (insert_copy p.id (partial_row w p sold_shares fill) s)

unfoldable pub reconcile_position : World → OpenAutoPosition → State → State
unfolding absent split_off provider_shares entry_order_is_unfilled_or_active
reconcile_position w p s =
    let shares = provider_shares w.provider_positions (to_ascii_uppercase (trim p.symbol)) 0 in
    let exit = w.latest_provider_sell_exit p in
    if ltb shares share
    then absent w p exit (entry_order_is_unfilled_or_active w p.order_id) s
    else if ltb shares (p.shares * share)
    then adjust (shares / share) p (
        if ltb 0 (p.shares - shares / share)
        then split_off w p (p.shares - shares / share) exit s
        else s)
    else if ltb (p.shares * share) shares
    then adjust (shares / share) p s
    else keep_position p s

unfoldable pub reconcile_loop : World → List OpenAutoPosition → State → State
unfolding reconcile_position
reconcile_loop w [] s = s
reconcile_loop w (p ∷ positions) s = reconcile_loop w positions (reconcile_position w p s)

unfoldable pub reconcile_open_positions_with_provider :
    World → List OpenAutoPosition → State → State
unfolding reconcile_loop
reconcile_open_positions_with_provider w positions s =
    reconcile_loop w positions (record s { kept = [] })
