-- ===== src/Exit.antt =====
-- Exit confirmation of an automatic position: `evaluate_confirmed_exit` of src/auto.rs with the
-- configuration and state that it reads. A moment is a number of seconds, a price a number of ticks
-- and a percentage a number of units of one kind; `TextClock` and `pnl_pct` stand for chrono's text
-- conversion and for the f64 expression `(current_price / entry_price - 1.0) * 100.0`.
mod State
pub mod Streak
pub mod Conditions
pub mod TakeProfit
mod Tests
pub use State.*
use mlai_trade.Common.{
  ℕ, ◌+◌, ◌-◌, ◌/◌, Bool, true, false, not, ◌&&◌, ◌||◌, Option, none, some, ltb, leb, ◌==◌,
  if◌then◌else◌, String, List, [], ◌∷◌,
}
use mathlib.Core.Option.{get_or}
use mlai_trade.Common.Int.{ℤ, pos, ◌-ℤ◌, ltb_ℤ, leb_ℤ}

-- Whether the reason's text begins with one of the three prefixes of a market order.
unfoldable pub needs_market_order : Reason → Bool
needs_market_order (Reason.stop_loss_emergency _ _) = true
needs_market_order Reason.asset_not_active_tradable = true
needs_market_order Reason.asset_missing_from_provider_universe = true
needs_market_order _ = false

-- A decision to sell now: no note, nothing left to wait for.
abbrev sell_now : Reason → Rule → ExitConfirmationState → ExitConfirmationDecision
sell_now r k s = record {
  reason = some r;
  state = s;
  note = none;
  rule = some k;
  cycles_remaining = some 0;
  minutes_remaining = some 0;
}

-- `if first.is_none() { first = Some(now_text) }`
abbrev pub or_now : Option String → String → Option String
or_now none t = some t
or_now (some s) t = some s

-- `unwrap_or(0)`
abbrev pub get_or_zero : Option ℕ → ℕ
get_or_zero none = 0
get_or_zero (some n) = n

-- `current_price <= sl` under `if let Some(sl)`.
abbrev pub at_or_below : Option ℕ → ℕ → Bool
at_or_below none price = false
at_or_below (some sl) price = leb price sl

-- `take_profit.map(|tp| current_price >= tp).unwrap_or(false)`
abbrev pub at_or_above : Option ℕ → ℕ → Bool
at_or_above none price = false
at_or_above (some tp) price = leb tp price

-- `peak.map(|peak| pnl_pct > peak).unwrap_or(true)`
abbrev pub above_peak : Option ℤ → ℤ → Bool
above_peak none pnl = true
above_peak (some peak) pnl = ltb_ℤ peak pnl

-- `peak_pct - pnl_pct >= giveback` under `if let Some(peak_pct)`.
abbrev pub gave_back : Option ℤ → ℤ → ℤ → Bool
gave_back none pnl giveback = false
gave_back (some peak) pnl giveback = leb_ℤ giveback (peak -ℤ pnl)

-- `entry_time.map(|entry| (now - entry).num_minutes().max(0))`
abbrev pub held_minutes : ℕ → Option ℕ → Option ℕ
held_minutes now none = none
held_minutes now (some entry) = some ((now - entry) / 60)

-- `min_hold_ok`
abbrev pub hold_ok : TakeProfitConfirmation → ℕ → Option ℕ → Bool
hold_ok c now none = c.min_hold_minutes == 0
hold_ok c now (some entry) = leb c.min_hold_minutes ((now - entry) / 60)

module _ (clock : TextClock) where
  -- The difference of two moments in whole minutes, which stops at 0 like `.max(0)`.
  unfoldable pub elapsed_minutes : ℕ → Option String → Option ℕ
  elapsed_minutes now none = none
  elapsed_minutes now (some since) = elim (clock.parse_utc_ts since) [
    | none ↦ none
    | some start ↦ some ((now - start) / 60)
  ]

  -- The breach is counted on every path of the stop-loss branch.
  unfoldable pub count_stop_loss_breach : ExitConfirmationState → ℕ → ExitConfirmationState
  count_stop_loss_breach s now = record s {
    stop_loss_breach_count = s.stop_loss_breach_count + 1;
    stop_loss_first_breach_at = or_now s.stop_loss_first_breach_at (clock.utc_ts now);
  }

  -- The stop-loss branch: the price is at or below the stop.
  unfoldable pub stop_loss_decision :
      StrategyConfig → ExitConfirmationState → ℕ → ℤ → ExitConfirmationDecision
  unfolding elapsed_minutes count_stop_loss_breach
  stop_loss_decision cfg state now pnl =
      let c : StopLossConfirmation = cfg.stop_loss_confirmation in
      let s : ExitConfirmationState = count_stop_loss_breach state now in
      let waited : ℕ = get_or_zero (elapsed_minutes now s.stop_loss_first_breach_at) in
      if ltb_ℤ (pos 0) c.emergency_stop_loss_pct && leb_ℤ pnl (pos 0 -ℤ c.emergency_stop_loss_pct)
      then sell_now (Reason.stop_loss_emergency pnl c.emergency_stop_loss_pct)
          Rule.emergency_stop_loss s
      else (if not c.enabled || leb c.cycles 1
          then sell_now (Reason.stop_loss pnl) Rule.stop_loss s
          else (if leb c.cycles s.stop_loss_breach_count
                || (ltb 0 c.max_confirmation_minutes && leb c.max_confirmation_minutes waited)
              then sell_now (Reason.stop_loss_confirmed pnl s.stop_loss_breach_count c.cycles)
                  Rule.stop_loss_confirmation s
              else record {
                reason = none;
                state = s;
                note = some (stop_loss_waiting s.stop_loss_breach_count c.cycles (pos 0 -ℤ pnl));
                rule = some Rule.stop_loss_confirmation;
                cycles_remaining = some (c.cycles - s.stop_loss_breach_count);
                minutes_remaining =
                    if ltb 0 c.max_confirmation_minutes
                    then some (c.max_confirmation_minutes - waited)
                    else none;
              }))

  -- Counting of a take-profit breach and of the peak, or the reset where the price is below.
  unfoldable pub count_take_profit :
      ExitConfirmationState → ℕ → ℕ → ℤ → Bool → ExitConfirmationState
  count_take_profit s now price pnl true =
      let higher : Bool = above_peak s.take_profit_peak_pct pnl in
      record s {
        take_profit_breach_count = s.take_profit_breach_count + 1;
        take_profit_first_breach_at = or_now s.take_profit_first_breach_at (clock.utc_ts now);
        take_profit_peak_pct = if higher then some pnl else s.take_profit_peak_pct;
        take_profit_peak_price = if higher then some price else s.take_profit_peak_price;
      }
  count_take_profit s now price pnl false = record s {
    take_profit_breach_count = 0;
    take_profit_first_breach_at = none;
    take_profit_peak_price = elim s.take_profit_peak_pct [
      | none ↦ none
      | some _ ↦ s.take_profit_peak_price
    ];
  }

  -- What is reported while no exit rule fires.
  unfoldable pub waiting_decision :
      TakeProfitConfirmation
      → ExitConfirmationState
      → ℤ
      → Option ℕ
      → Bool
      → Bool
      → ExitConfirmationDecision
  waiting_decision c s pnl held seen long_enough =
      if seen
      then (if long_enough
          then record {
            reason = none;
            state = s;
            note = some (take_profit_waiting s.take_profit_breach_count c.cycles pnl);
            rule = some Rule.take_profit_confirmation;
            cycles_remaining = some (c.cycles - s.take_profit_breach_count);
            minutes_remaining = none;
          }
          else record {
            reason = none;
            state = s;
            note = some (min_hold_waiting (get_or_zero held) c.min_hold_minutes pnl);
            rule = some Rule.take_profit_min_hold;
            cycles_remaining = none;
            minutes_remaining = some (c.min_hold_minutes - get_or_zero held);
          })
      else record {
        reason = none;
        state = s;
        note = none;
        rule = none;
        cycles_remaining = none;
        minutes_remaining = none;
      }

  -- The take-profit part: the price is above the stop, whose counter is already reset.
  unfoldable pub take_profit_decision :
      StrategyConfig → ExitConfirmationState → ℕ → ExitPriceContext → ℤ → ExitConfirmationDecision
  unfolding count_take_profit waiting_decision
  take_profit_decision cfg state now prices pnl =
      let c : TakeProfitConfirmation = cfg.take_profit_confirmation in
      let held : Option ℕ = held_minutes now prices.entry_time in
      let long : Bool = hold_ok c now prices.entry_time in
      let seen : Bool = at_or_above prices.take_profit prices.current_price in
      let s : ExitConfirmationState = count_take_profit state now prices.current_price pnl seen in
      if seen && not c.enabled
      then sell_now (Reason.take_profit pnl) Rule.take_profit s
      else (if c.enabled
            && c.trailing_enabled
            && long
            && gave_back s.take_profit_peak_pct pnl c.trailing_giveback_pct
          then sell_now
              (Reason.take_profit_trail pnl (get_or s.take_profit_peak_pct pnl)
                c.trailing_giveback_pct)
              Rule.take_profit_trailing s
          else (if seen && long && leb c.cycles s.take_profit_breach_count
              then sell_now (Reason.take_profit_confirmed pnl s.take_profit_breach_count c.cycles)
                  Rule.take_profit_confirmation s
              else waiting_decision c s pnl held seen long))

  module _ (pnl_pct : ℕ → ℕ → ℤ) where
    -- The whole evaluation. The stop-loss branch returns; past it the stop-loss counter is reset.
    unfoldable pub evaluate_confirmed_exit :
        StrategyConfig → ExitConfirmationState → ℕ → ExitPriceContext → ExitConfirmationDecision
    evaluate_confirmed_exit cfg state now prices =
        let pnl : ℤ = pnl_pct prices.current_price prices.entry_price in
        if at_or_below prices.stop_loss prices.current_price
        then stop_loss_decision cfg state now pnl
        else take_profit_decision cfg
            (record state { stop_loss_breach_count = 0; stop_loss_first_breach_at = none }) now
            prices pnl

    -- Successive cycles of one position: the state of each decision is stored and read back.
    unfoldable pub evaluate_cycles :
        StrategyConfig → ExitConfirmationState → List (ℕ × ExitPriceContext) → ExitConfirmationState
    evaluate_cycles cfg s [] = s
    evaluate_cycles cfg s ((now, prices) ∷ rest) =
        evaluate_cycles cfg (evaluate_confirmed_exit cfg s now prices).state rest
