-- ===== src/Buying/Cycle.antt =====
-- The guard and the loop of src/auto.rs together: what a cycle's buy orders add up to.
use mlai_trade.Common.{
  true, is_some, Option, none, some, ◌≤◌, ◌<◌, ◌≡◌, refl, ◌⊎◌, inl, inr, Bool, false, ◌||◌, List,
  [], arith, ◌==◌, Bool-cases, length, All,
}
use mlai_trade.Calendar.{TradePhase, Block, local_market_block, predictions_are_stale}
use mlai_trade.Common.Int.{ℤ, pos, ◌+ℤ◌, ◌≤ℤ◌, leb_ℤ, int_laws, parts_of_eq, eq_of_parts}
use mlai_trade.Buying.{
  CashOnlyGuard, Position, OrderRow, BuyConfig, Candidate, Buy, buy_phase, total, cycle_guard,
  BuyContext, is_blocked, cycle_buys,
}
use mlai_trade.Buying.Guard.{committed, cash_only_guard-IsLargest}
use mlai_trade.Buying.Orders.{spent, Distinct, Inv, buy_loop-Inv}

-- What the buy orders of one phase satisfy.
pub record IsWithin (cfg : BuyConfig) (deployable : ℤ) (buys : List Buy) : Type 0 where
  pub within_cash : (buys ≡ []) ⊎ (pos (spent buys) ≤ℤ deployable)
  pub within_slots : length buys ≤ cfg.slots
  pub priced : All (λ (b : Buy). (cfg.min_price ≤ b.price) × (0 < b.shares)) buys
  pub distinct : Distinct buys

nothing-IsWithin : (cfg : BuyConfig) (deployable : ℤ) → IsWithin cfg deployable []
nothing-IsWithin cfg deployable = record {
  within_cash = inl refl;
  within_slots = omega arith;
  priced = tt;
  distinct = tt;
}

start-Inv :
    (cfg : BuyConfig) (equity deployable : ℤ)
    → leb_ℤ deployable (pos 0) ≡ false
    → Inv cfg equity deployable (record { remaining_cash = deployable; filled = 0; buys = [] })
start-Inv cfg equity deployable h = record {
  cash = eq_of_parts (deployable +ℤ pos 0) deployable (omega int_laws);
  not_negative = ground (arith, h);
  count = refl;
  in_slots = omega arith;
  priced = tt;
  distinct = tt;
}

-- The orders that a buying phase places are worth no more than the deployable cash, if there are any; they
-- are no more than the free slots, each of at least one share at the least price or more, and no symbol
-- occurs twice.
pub buy_phase-IsWithin :
    (cfg : BuyConfig) (equity : ℤ) (blocked : Bool) (deployable : ℤ) (candidates : List Candidate)
    → IsWithin cfg deployable (buy_phase cfg equity blocked deployable candidates)
unfolding buy_phase
buy_phase-IsWithin cfg equity blocked deployable candidates =
    elim (Bool-cases ((cfg.slots == 0) || blocked || leb_ℤ deployable (pos 0))) [
      | inl nothing ↦ rw (buy_phase, nothing) (nothing-IsWithin cfg deployable)
      | inr trades ↦
          let inv =
            buy_loop-Inv cfg equity deployable candidates _
              (start-Inv cfg equity deployable (ground (arith, trades))) in
          rw (buy_phase, trades)
            (record {
              within_cash = inr (omega (int_laws, parts_of_eq _ _ inv.cash, inv.not_negative));
              within_slots = omega (arith, inv.count, inv.in_slots);
              priced = inv.priced;
              distinct = inv.distinct;
            })
    ]

blocked_phase :
    (cfg : BuyConfig) (equity deployable : ℤ) (candidates : List Candidate)
    → buy_phase cfg equity true deployable candidates ≡ []
unfolding buy_phase
blocked_phase cfg equity deployable candidates =
    let blocked : ((cfg.slots == 0) || true || leb_ℤ deployable (pos 0)) ≡ true = ground arith in
    rw (buy_phase, blocked) refl

-- What a cycle's orders are held to: the market is open for buying, the predictions are young enough where
-- that is asked for, and the orders are paid for without margin.
pub record IsCovered (ctx : BuyContext) (provider_cash equity : ℤ) (g : CashOnlyGuard)
    (buys : List Buy) : Type 0 where
  pub in_window : local_market_block ctx.dates ctx.schedule TradePhase.buy ctx.date ctx.time ≡ none
  pub fresh :
      (ctx.stale_prediction_buy_block ≡ false)
      ⊎ (predictions_are_stale ctx.dates ctx.prediction ctx.today ctx.max_age ≡ false)
  pub within_cash : pos (spent buys) ≤ℤ provider_cash
  pub within_equity : pos (spent buys) +ℤ committed g ≤ℤ equity

-- A cycle places no order, or the local market does not block buying, the predictions are not stale where that
-- counts, and the orders together cost no more than the provider's cash, and together with the larger exposure
-- and the reserve of the pending orders no more than the equity: the account buys without margin.
pub cycle_buys-IsCovered :
    (cfg : BuyConfig) (ctx : BuyContext) (rows : List OrderRow) (provider_cash equity : ℤ)
    (positions : List Position) (cost_bases : List ℤ) (candidates : List Candidate)
    → (cycle_buys cfg ctx rows provider_cash equity positions cost_bases candidates ≡ [])
      ⊎ IsCovered ctx provider_cash equity
          (cycle_guard rows provider_cash equity positions cost_bases)
          (cycle_buys cfg ctx rows provider_cash equity positions cost_bases candidates)
unfolding cycle_buys cycle_guard
cycle_buys-IsCovered cfg ctx rows provider_cash equity positions cost_bases candidates =
    let g = cycle_guard rows provider_cash equity positions cost_bases in
    let (below_cash, below_equity, which, nonneg) =
      cash_only_guard-IsLargest rows provider_cash equity positions (total cost_bases) in
    elim (Bool-cases (is_blocked ctx)) [
      | inl blocked ↦ inl (rw blocked (blocked_phase cfg equity g.deployable_cash candidates))
      | inr free ↦
          elim (buy_phase-IsWithin cfg equity (is_blocked ctx) g.deployable_cash
            candidates).within_cash [
              | inl nothing ↦ inl nothing
              | inr within ↦ inr (record {
                in_window = window free;
                fresh = ground (arith, free);
                within_cash = omega (arith, within, below_cash);
                within_equity = omega (int_laws, within, below_equity);
              })
            ]
    ]
  where
    no_block : (o : Option Block) (stale : Bool) → is_some o || stale ≡ false → o ≡ none
    no_block none stale h = refl
    no_block (some block) stale h = ground (arith, h)

    window :
        is_blocked ctx ≡ false
        → local_market_block ctx.dates ctx.schedule TradePhase.buy ctx.date ctx.time ≡ none
    window free =
        no_block (local_market_block ctx.dates ctx.schedule TradePhase.buy ctx.date ctx.time) _ free
