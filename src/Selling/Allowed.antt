-- ===== src/Selling/Allowed.antt =====
-- What the sell loop of src/auto.rs does with every position: its orders, and why there is none.
use mlai_trade.Common.{
  ℕ, ◌≡◌, ◌⊎◌, true, false, none, some, is_some, List, [], ◌∷◌, ◌++◌, leb, All, Any,
}
use mlai_trade.Calendar.{TradePhase, local_market_block}
use mlai_trade.Exit.{Reason}
use mlai_trade.Selling.{
  Offer, SellContext, SellState, Sell, sell_of, exit_order_is_active, exit_reason,
  pdt_day_trades_count, decision_at,
}

-- Why a cycle places no order for a position.
pub data Held (ctx : SellContext) (o : Offer) : Type 0 where
  no_price : o.execution_price ≡ none → Held ctx o
  no_reason :
      (price : ℕ)
      → o.execution_price ≡ some price
      → exit_reason ctx o (decision_at ctx o price).reason ≡ none
      → Held ctx o
  already_ordered : exit_order_is_active ctx o.position.exit_order_id ≡ true → Held ctx o
  window_closed :
      is_some (
          local_market_block ctx.dates ctx.schedule TradePhase.sell ctx.market_date ctx.market_time)
        ≡ true
      → Held ctx o
  day_trade_limit : leb 3 (pdt_day_trades_count ctx) ≡ true → o.bought_today ≡ true → Held ctx o
  refused : o.order_accepted ≡ false → Held ctx o

-- The order of a position: of all its shares, for its first exit reason at a price that is known, in the sell
-- window, with no exit order at work, and no day trade behind the limit.
pub record IsAllowed (ctx : SellContext) (o : Offer) (sale : Sell) : Type 0 where
  pub price : ℕ
  pub reason : Reason
  pub priced : o.execution_price ≡ some price
  pub reasoned : exit_reason ctx o (decision_at ctx o price).reason ≡ some reason
  pub ordered : sale ≡ sell_of o.position price reason
  pub not_ordered : exit_order_is_active ctx o.position.exit_order_id ≡ false
  pub window_open :
      is_some
        (local_market_block ctx.dates ctx.schedule TradePhase.sell ctx.market_date ctx.market_time)
      ≡ false
  pub no_day_trade : (leb 3 (pdt_day_trades_count ctx) ≡ false) ⊎ (o.bought_today ≡ false)

-- A turn leaves the orders as they are, or adds the one of its position.
abbrev Turn : SellContext → Offer → SellState → SellState → Type 0
Turn ctx o s s' =
    (s'.sells ≡ s.sells) × Held ctx o
    ⊎ ((sale : Sell) × (s'.sells ≡ s.sells ++ (sale ∷ [])) × IsAllowed ctx o sale)

abbrev with_order : Offer → ℕ → Reason → SellState → List Sell
with_order o price reason s = s.sells ++ (sell_of o.position price reason ∷ [])

-- Every order is the allowed one of some position, and every position has its order or a reason for none.
abbrev IsOrderOf : SellContext → List Offer → Sell → Type 0
IsOrderOf ctx offers sale = Any (λ (o : Offer). IsAllowed ctx o sale) offers

abbrev IsDecided : SellContext → List Sell → Offer → Type 0
IsDecided ctx sells o = Any (IsAllowed ctx o) sells ⊎ Held ctx o

-- The loop's orders are those of before and new ones.
pub record Orders (ctx : SellContext) (offers : List Offer) (before after : List Sell)
    : Type 0 where
  pub orders : List Sell
  pub appended : after ≡ before ++ orders
  pub allowed : All (λ (sale : Sell). IsOrderOf ctx offers sale) orders
  pub decided : All (IsDecided ctx orders) offers
