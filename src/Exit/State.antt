-- ===== src/Exit/State.antt =====
-- The configuration, state, prices and decisions of the exit confirmation in src/auto.rs.
use mlai_trade.Common.{ℕ, Bool, Option, none, String}
use mlai_trade.Common.Int.{ℤ}

pub record StopLossConfirmation : Type 0 where
  pub enabled : Bool
  pub cycles : ℕ
  pub max_confirmation_minutes : ℕ
  pub emergency_stop_loss_pct : ℤ

pub record TakeProfitConfirmation : Type 0 where
  pub enabled : Bool
  pub cycles : ℕ
  pub min_hold_minutes : ℕ
  pub trailing_enabled : Bool
  pub trailing_giveback_pct : ℤ

-- The two parts of `StrategyConfig` that the evaluation reads.
pub record StrategyConfig : Type 0 where
  pub stop_loss_confirmation : StopLossConfirmation
  pub take_profit_confirmation : TakeProfitConfirmation

pub record ExitConfirmationState : Type 0 where
  pub stop_loss_breach_count : ℕ
  pub stop_loss_first_breach_at : Option String
  pub take_profit_breach_count : ℕ
  pub take_profit_first_breach_at : Option String
  pub take_profit_peak_pct : Option ℤ
  pub take_profit_peak_price : Option ℕ

-- `ExitConfirmationState::default()`
abbrev pub fresh : ExitConfirmationState
fresh = record {
  stop_loss_breach_count = 0;
  stop_loss_first_breach_at = none;
  take_profit_breach_count = 0;
  take_profit_first_breach_at = none;
  take_profit_peak_pct = none;
  take_profit_peak_price = none;
}

pub record ExitPriceContext : Type 0 where
  pub entry_time : Option ℕ
  pub current_price : ℕ
  pub entry_price : ℕ
  pub stop_loss : Option ℕ
  pub take_profit : Option ℕ

-- The formatted reason, by its leading word and the values that it prints.
pub data Reason : Type 0 where
  stop_loss_emergency : ℤ → ℤ → Reason
  stop_loss : ℤ → Reason
  stop_loss_confirmed : ℤ → ℕ → ℕ → Reason
  take_profit : ℤ → Reason
  take_profit_trail : ℤ → ℤ → ℤ → Reason
  take_profit_confirmed : ℤ → ℕ → ℕ → Reason
  time_stop : Reason
  ml_degraded : Reason
  asset_not_active_tradable : Reason
  asset_missing_from_provider_universe : Reason

-- The formatted note: the two `stop-loss` and `take-profit` confirmation texts and the hold text.
pub data Note : Type 0 where
  stop_loss_waiting : ℕ → ℕ → ℤ → Note
  take_profit_waiting : ℕ → ℕ → ℤ → Note
  min_hold_waiting : ℕ → ℕ → ℤ → Note

pub data Rule : Type 0 where
  emergency_stop_loss stop_loss stop_loss_confirmation : Rule
  take_profit take_profit_trailing take_profit_confirmation take_profit_min_hold : Rule

pub record ExitConfirmationDecision : Type 0 where
  pub reason : Option Reason
  pub state : ExitConfirmationState
  pub note : Option Note
  pub rule : Option Rule
  pub cycles_remaining : Option ℕ
  pub minutes_remaining : Option ℕ

-- chrono's text form of a moment: what `utc_ts` writes and `parse_utc_ts` reads.
pub record TextClock : Type 0 where
  pub utc_ts : ℕ → String
  pub parse_utc_ts : String → Option ℕ
