-- ===== src/Selling.antt =====
-- The sell loop of a cycle in src/auto.rs `run_auto_account`: over the exit confirmation of Exit, the trading
-- windows of Calendar and the count of day trades. A date is a day number and a moment a number of seconds.
-- What the quotes, the tables of assets, predictions and trades, and the broker answer comes with a position.
pub mod Allowed
mod Tests
use mlai_trade.Common.{
  ℕ, ◌-◌, Bool, true, false, not, ◌&&◌, ◌||◌, Option, none, some, is_some, List, [], ◌∷◌, ◌++◌,
  if◌then◌else◌, leb, keep, length,
}
use mlai_trade.Common.Int.{ℤ, pos, leb_ℤ}
use mlai_trade.Calendar.{Dates, MarketSchedule, TradePhase, local_market_block}
use mlai_trade.Exit.{
  TextClock, StrategyConfig, ExitConfirmationState, ExitPriceContext, ExitConfirmationDecision,
  Reason, needs_market_order, evaluate_confirmed_exit,
}
use mlai_trade.Buying.{OrderStatus, provider_order_status_is_terminal}
use mlai_trade.Origin.{is_blank}
use mlai_trade.Holdings.{OrderSnapshot}

-- `status` compared with `active`, and `tradable`.
pub record Asset : Type 0 where
  pub is_active : Bool
  pub tradable : Bool

-- The table of assets is missing or empty, has no row of the symbol, or has one.
pub data AssetLookup : Type 0 where
  no_assets not_listed : AssetLookup
  listed : Asset → AssetLookup

unfoldable pub asset_exit_risk : AssetLookup → Option Reason
asset_exit_risk no_assets = none
asset_exit_risk not_listed = some Reason.asset_missing_from_provider_universe
asset_exit_risk (listed a) =
    if a.is_active && a.tradable then none else some Reason.asset_not_active_tradable

pub record Position : Type 0 where
  pub id : ℕ
  pub entry_price : ℕ
  pub shares : ℕ
  pub entry_time : Option ℕ
  pub stop_loss : Option ℕ
  pub take_profit : Option ℕ
  pub exit_by : Option ℕ
  pub exit_order_id : Option (List ℕ)
  pub confirmation : ExitConfirmationState

-- A position with what the loop learns of it: its price, if there is one, its asset, its latest quintile,
-- whether it was bought today, and whether the broker takes the order.
pub record Offer : Type 0 where
  pub position : Position
  pub execution_price : Option ℕ
  pub asset : AssetLookup
  pub latest_quintile : Option ℕ
  pub bought_today : Bool
  pub order_accepted : Bool

pub record SellContext : Type 0 where
  pub clock : TextClock
  pub pnl_pct : ℕ → ℕ → ℤ
  pub exit_config : StrategyConfig
  pub ml_quintile_exit : ℕ
  pub now : ℕ
  pub today : ℕ
  pub dates : Dates
  pub schedule : MarketSchedule
  pub market_date : ℕ
  pub market_time : ℕ
  pub order_snapshot : List ℕ → Option OrderSnapshot
  pub day_trades : List ℕ

abbrev is_filled : OrderStatus → Bool
is_filled OrderStatus.filled = true
is_filled _ = false

abbrev is_working : Option OrderSnapshot → Bool
is_working none = false
is_working (some o) =
    if is_filled o.status && (leb_ℤ o.qty (pos 0) || leb_ℤ o.qty o.filled_qty)
    then false
    else not (provider_order_status_is_terminal o.status)

unfoldable pub exit_order_is_active : SellContext → Option (List ℕ) → Bool
exit_order_is_active ctx none = false
exit_order_is_active ctx (some order_id) =
    if is_blank order_id then false else is_working (ctx.order_snapshot order_id)

abbrev pub prices_at : Position → ℕ → ExitPriceContext
prices_at p price = record {
  entry_time = p.entry_time;
  current_price = price;
  entry_price = p.entry_price;
  stop_loss = p.stop_loss;
  take_profit = p.take_profit;
}

abbrev is_due : SellContext → Option ℕ → Bool
is_due ctx none = false
is_due ctx (some exit_date) = leb exit_date ctx.today

abbrev is_degraded : SellContext → Option ℕ → Bool
is_degraded ctx none = false
is_degraded ctx (some q) = leb ctx.ml_quintile_exit q

abbrev or_else : Option Reason → Option Reason → Option Reason
or_else none b = b
or_else (some a) b = some a

-- The asset's risk comes before the confirmed exit, the time limit before the degraded prediction.
unfoldable pub exit_reason : SellContext → Offer → Option Reason → Option Reason
unfolding asset_exit_risk
exit_reason ctx o confirmed = or_else (asset_exit_risk o.asset) (
    or_else confirmed (
      if is_due ctx o.position.exit_by
      then some Reason.time_stop
      else if is_degraded ctx o.latest_quintile
      then some Reason.ml_degraded
      else none))

-- `trade_date >= date('now', '-5 days')`
unfoldable pub pdt_day_trades_count : SellContext → ℕ
pdt_day_trades_count ctx = length (keep (λ (d : ℕ). leb (ctx.today - 5) d) ctx.day_trades)

abbrev pub pdt_trade_limit : ℕ
pdt_trade_limit = 3

-- A limit order has a price.
pub record Sell : Type 0 where
  pub id : ℕ
  pub shares : ℕ
  pub reason : Reason
  pub limit_price : Option ℕ

abbrev pub sell_of : Position → ℕ → Reason → Sell
sell_of p price reason = record {
  id = p.id;
  shares = p.shares;
  reason = reason;
  limit_price = if needs_market_order reason then none else some price;
}

pub record Stored : Type 0 where
  pub id : ℕ
  pub state : ExitConfirmationState

-- The confirmation states that are written and the orders that are placed.
pub record SellState : Type 0 where
  pub stored : List Stored
  pub sells : List Sell

-- The guards in front of the order.
unfoldable pub place_exit : SellContext → Offer → ℕ → Reason → SellState → SellState
unfolding exit_order_is_active pdt_day_trades_count
place_exit ctx o price reason s =
    if exit_order_is_active ctx o.position.exit_order_id
    then s
    else if is_some
        (local_market_block ctx.dates ctx.schedule TradePhase.sell ctx.market_date ctx.market_time)
    then s
    else if leb pdt_trade_limit (pdt_day_trades_count ctx) && o.bought_today
    then s
    else if o.order_accepted
    then record s { sells = s.sells ++ (sell_of o.position price reason ∷ []) }
    else s

abbrev pub with_reason : SellContext → Offer → ℕ → Option Reason → SellState → SellState
with_reason ctx o price none s = s
with_reason ctx o price (some reason) s = place_exit ctx o price reason s

abbrev pub decision_at : SellContext → Offer → ℕ → ExitConfirmationDecision
decision_at ctx o price =
    evaluate_confirmed_exit ctx.clock ctx.pnl_pct ctx.exit_config o.position.confirmation ctx.now
      (prices_at o.position price)

abbrev pub stored_at : SellContext → Offer → ℕ → SellState → SellState
stored_at ctx o price s = record s {
  stored =
      s.stored ++ (record { id = o.position.id; state = (decision_at ctx o price).state } ∷ []);
}

-- The evaluation's state is stored before anything else is decided.
abbrev pub at_price : SellContext → Offer → Option ℕ → SellState → SellState
at_price ctx o none s = s
at_price ctx o (some price) s =
    with_reason ctx o price (exit_reason ctx o (decision_at ctx o price).reason)
      (stored_at ctx o price s)

unfoldable pub sell_step : SellContext → Offer → SellState → SellState
unfolding place_exit exit_reason
sell_step ctx o s = at_price ctx o o.execution_price s

unfoldable pub sell_loop : SellContext → List Offer → SellState → SellState
unfolding sell_step
sell_loop ctx [] s = s
sell_loop ctx (o ∷ offers) s = sell_loop ctx offers (sell_step ctx o s)
