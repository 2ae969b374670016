-- ===== src/Buying.antt =====
-- The cash-only buying of src/auto.rs: the guard that computes what may be spent and the loop that places
-- buy orders. Amounts are exact integers in place of doubles: a quantity times a price is a value. A share
-- of the equity is given in hundredths of a percent. Quotes, the broker's answers and the database are inputs.
pub mod Guard
pub mod Orders
pub mod Cycle
mod Tests
use mlai_trade.Common.{
  is_some, ℕ, zero, suc, ◌+◌, ◌-◌, ◌*◌, ◌/◌, ◌^◌, ◌≡◌, min, Bool, true, false, not, ◌&&◌, ◌||◌,
  Option, none, some, List, [], ◌∷◌, if◌then◌else◌, leb, ltb, ◌==◌, any, length,
}
use mlai_trade.Calendar.{
  Dates, MarketSchedule, TradePhase, local_market_block, predictions_are_stale,
}
use mlai_trade.Common.Int.{
  ℤ, pos, negsuc, pos_part, neg_part, ◌+ℤ◌, ◌-ℤ◌, ◌*ℤ◌, leb_ℤ, ltb_ℤ, min_ℤ, max_ℤ,
}

abbrev pub positive : ℤ → Bool
positive a = ltb_ℤ (pos 0) a

-- `abs()`
abbrev pub abs : ℤ → ℤ
abs a = pos (pos_part a + neg_part a)

-- A provider's position with its parsed numbers; what is missing or no number is 0.
pub record Position : Type 0 where
  pub qty : ℤ
  pub market_value : ℤ
  pub current_price : ℤ
  pub avg_entry_price : ℤ

unfoldable pub position_value : Position → ℤ
position_value p =
    if leb_ℤ p.qty (pos 0)
    then pos 0
    else if positive (abs p.market_value)
    then abs p.market_value
    else if positive p.current_price
    then p.qty *ℤ p.current_price
    else if positive p.avg_entry_price
    then p.qty *ℤ p.avg_entry_price
    else pos 0

unfoldable pub provider_long_market_value : List Position → ℤ
unfolding position_value
provider_long_market_value [] = pos 0
provider_long_market_value (p ∷ ps) = position_value p +ℤ provider_long_market_value ps

-- The states of an order that the code tells apart.
pub data OrderStatus : Type 0 where
  filled canceled cancelled expired rejected stopped done_for_day other_status : OrderStatus

abbrev pub is_terminal : OrderStatus → Bool
is_terminal other_status = false
is_terminal done_for_day = false
is_terminal filled = true
is_terminal canceled = true
is_terminal cancelled = true
is_terminal expired = true
is_terminal rejected = true
is_terminal stopped = true

-- The reservations of the guard above count an order that is done for the day, this test does not.
abbrev pub provider_order_status_is_terminal : OrderStatus → Bool
provider_order_status_is_terminal done_for_day = true
provider_order_status_is_terminal status = is_terminal status

-- A buy order of the provider's snapshot.
pub record OrderRow : Type 0 where
  pub status : OrderStatus
  pub qty : ℤ
  pub filled_qty : ℤ
  pub limit_price : ℤ
  pub filled_avg_price : ℤ

unfoldable pub pending_buy_order_value : ℤ → ℤ → ℤ → ℤ → ℤ
pending_buy_order_value row_qty row_filled_qty row_limit row_fill =
    let remaining_qty = max_ℤ (row_qty -ℤ max_ℤ row_filled_qty (pos 0)) (pos 0) in
    let price = (if positive row_limit then row_limit else row_fill) in
    if leb_ℤ remaining_qty (pos 0)
    then pos 0
    else if positive price
    then remaining_qty *ℤ price
    else pos 0

unfoldable pub pending_buy_reservations : List OrderRow → ℤ
unfolding pending_buy_order_value
pending_buy_reservations [] = pos 0
pending_buy_reservations (row ∷ rows) =
    let rest = pending_buy_reservations rows in
    if is_terminal row.status
    then rest
    else pending_buy_order_value row.qty row.filled_qty row.limit_price row.filled_avg_price +ℤ rest

pub record CashOnlyGuard : Type 0 where
  pub provider_cash : ℤ
  pub equity : ℤ
  pub provider_long_exposure : ℤ
  pub local_auto_exposure : ℤ
  pub pending_buy_reserved : ℤ
  pub deployable_cash : ℤ

unfoldable pub cash_only_guard : List OrderRow → ℤ → ℤ → List Position → ℤ → CashOnlyGuard
unfolding provider_long_market_value pending_buy_reservations
cash_only_guard rows provider_cash equity provider_positions local_auto_exposure =
    let provider_long_exposure = provider_long_market_value provider_positions in
    let pending_buy_reserved = pending_buy_reservations rows in
    let exposure = max_ℤ provider_long_exposure local_auto_exposure in
    record {
      provider_cash = provider_cash;
      equity = equity;
      provider_long_exposure = provider_long_exposure;
      local_auto_exposure = local_auto_exposure;
      pending_buy_reserved = pending_buy_reserved;
      deployable_cash = min_ℤ provider_cash (equity -ℤ exposure -ℤ pending_buy_reserved);
    }

pub record BuyConfig : Type 0 where
  pub position_size_pct : ℕ
  pub min_price : ℕ
  pub slots : ℕ

-- A candidate with what the loop learns of it: its price, if there is one, whether the database has an open
-- or pending position of it from before the loop, and whether the broker takes the order.
pub record Candidate : Type 0 where
  pub symbol : ℕ
  pub price : Option ℕ
  pub is_held : Bool
  pub order_accepted : Bool

pub record Buy : Type 0 where
  pub symbol : ℕ
  pub shares : ℕ
  pub price : ℕ

-- The variables of the loop; the latest buy comes first.
pub record BuyState : Type 0 where
  pub remaining_cash : ℤ
  pub filled : ℕ
  pub buys : List Buy

-- `continue` or `break`.
pub data Step : Type 0 where
  go_on stop : BuyState → Step

abbrev max_shares : ℕ
max_shares = 2 ^ 63 - 1

-- `(position_budget / price).floor() as i64`, which saturates; a quotient that is not positive gives 0.
unfoldable pub shares_for : ℕ → ℤ → ℕ → ℕ
shares_for pct equity price =
    if price == 0
    then if (pos_part equity * pct) == 0 then 0 else max_shares
    else min (pos_part equity * pct / (10000 * price)) max_shares

abbrev pub is_open : BuyState → Candidate → Bool
is_open s c = c.is_held || any (λ (b : Buy). b.symbol == c.symbol) s.buys

abbrev pub bought : BuyState → ℕ → ℕ → ℕ → BuyState
bought s symbol shares price = record {
  remaining_cash = s.remaining_cash -ℤ pos (shares * price);
  filled = suc s.filled;
  buys = record { symbol = symbol; shares = shares; price = price } ∷ s.buys;
}

unfoldable pub place_order : BuyState → Candidate → ℕ → ℕ → Step
place_order s c price shares =
    if shares == 0
    then go_on s
    else if leb_ℤ s.remaining_cash (pos 0)
    then go_on s
    else if ltb_ℤ (s.remaining_cash -ℤ pos (shares * price)) (pos 0)
    then go_on s
    else if ltb (pos_part s.remaining_cash * 95) (shares * price * 100)
    then stop s
    else if is_open s c
    then go_on s
    else if c.order_accepted
    then go_on (bought s c.symbol shares price)
    else go_on s

module _ (cfg : BuyConfig) (equity : ℤ) where
  abbrev with_price : BuyState → Candidate → Option ℕ → Step
  with_price s c none = go_on s
  with_price s c (some price) =
      if ltb price cfg.min_price
      then go_on s
      else place_order s c price (shares_for cfg.position_size_pct equity price)

  unfoldable pub candidate_step : BuyState → Candidate → Step
  unfolding place_order
  candidate_step s c = if leb cfg.slots s.filled then stop s else with_price s c c.price

  unfoldable pub buy_loop : List Candidate → BuyState → BuyState
  buy_loop [] s = s
  buy_loop (c ∷ candidates) s = elim (candidate_step s c) [
    | go_on s' ↦ buy_loop candidates s'
    | stop s' ↦ s'
  ]

  -- The buying part of a cycle: `blocked` is a closed window or a stale prediction.
  unfoldable pub buy_phase : Bool → ℤ → List Candidate → List Buy
  unfolding buy_loop
  buy_phase blocked deployable_cash candidates =
      if (cfg.slots == 0) || blocked || leb_ℤ deployable_cash (pos 0)
      then []
      else (buy_loop candidates
          (record { remaining_cash = deployable_cash; filled = 0; buys = [] })).buys

abbrev pub total : List ℤ → ℤ
total [] = pos 0
total (a ∷ rest) = a +ℤ total rest

-- The guard of a cycle, over the cost bases of the open positions, and the orders behind it.
unfoldable pub cycle_guard : List OrderRow → ℤ → ℤ → List Position → List ℤ → CashOnlyGuard
cycle_guard rows provider_cash equity positions cost_bases =
    cash_only_guard rows provider_cash equity positions (total cost_bases)

-- What may block the buying of a cycle: the local market's clock and predictions that are too old.
pub record BuyContext : Type 0 where
  pub dates : Dates
  pub schedule : MarketSchedule
  pub date : ℕ
  pub time : ℕ
  pub stale_prediction_buy_block : Bool
  pub prediction : Option ℕ
  pub today : ℕ
  pub max_age : ℕ

abbrev pub is_blocked : BuyContext → Bool
is_blocked ctx =
    is_some (local_market_block ctx.dates ctx.schedule TradePhase.buy ctx.date ctx.time)
    || (ctx.stale_prediction_buy_block
        && predictions_are_stale ctx.dates ctx.prediction ctx.today ctx.max_age)

unfoldable pub cycle_buys :
    BuyConfig
    → BuyContext
    → List OrderRow
    → ℤ
    → ℤ
    → List Position
    → List ℤ
    → List Candidate
    → List Buy
unfolding cycle_guard buy_phase
cycle_buys cfg ctx rows provider_cash equity positions cost_bases candidates =
    buy_phase cfg equity (is_blocked ctx)
      (cycle_guard rows provider_cash equity positions cost_bases).deployable_cash candidates
