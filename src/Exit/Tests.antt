-- ===== src/Exit/Tests.antt =====
-- Runs of the exit confirmation, and the theorems at concrete inputs.
use mlai_trade.Common.{
  arith, ◌⊎◌, ℕ, zero, ◌+◌, ◌≤◌, ◌<◌, ◌≡◌, ◌≢◌, refl, ◌↔◌, true, none, some, List, [], ◌∷◌,
}
use mlai_trade.Common.Int.{ℤ, pos, negsuc, ◌≤ℤ◌, ◌-ℤ◌, sub_ℕ}
use mlai_trade.Exit.{
  TextClock, StrategyConfig, ExitConfirmationState, ExitPriceContext, Reason, fresh,
  evaluate_confirmed_exit, evaluate_cycles, stop_loss_decision, take_profit_decision,
}
use mlai_trade.Exit.Streak.{held_back_iff, IsEmergency, waited}
use mlai_trade.Exit.Conditions.{IsHeld, IsReached, FellBack}
use mlai_trade.Exit.TakeProfit.{take_profit_iff, take_profit_across_stop}

-- A text clock that tells two moments apart and no more.
abbrev two_times : TextClock
two_times = record {
  utc_ts = λ t. elim t [ zero ↦ "start" | _ ↦ "later" ];
  parse_utc_ts = λ s. some 0;
}

-- Percentages as the difference in ticks.
abbrev ticks : ℕ → ℕ → ℤ
ticks current entry = sub_ℕ current entry

abbrev cfg : StrategyConfig
cfg = record {
  stop_loss_confirmation = record {
    enabled = true;
    cycles = 3;
    max_confirmation_minutes = 0;
    emergency_stop_loss_pct = pos 50;
  };
  take_profit_confirmation = record {
    enabled = true;
    cycles = 2;
    min_hold_minutes = 1;
    trailing_enabled = true;
    trailing_giveback_pct = pos 5;
  };
}

abbrev at_price : ℕ → ExitPriceContext
at_price n = record {
  entry_time = some 0;
  current_price = n;
  entry_price = 100;
  stop_loss = some 95;
  take_profit = some 110;
}

stop_after_three :
    (evaluate_confirmed_exit two_times ticks cfg
      (evaluate_cycles two_times ticks cfg fresh ((0, at_price 90) ∷ (60, at_price 91) ∷ []))
      120
      (at_price 92)).reason
    ≡ some (Reason.stop_loss_confirmed (negsuc 7) 3 3)
unfolding evaluate_confirmed_exit evaluate_cycles stop_loss_decision take_profit_decision ◌-ℤ◌
stop_after_three = refl

abbrev two_breaches : List (ℕ × ExitPriceContext)
two_breaches = (0, at_price 90) ∷ (60, at_price 91) ∷ []

held_back_iff_example :
    ((evaluate_confirmed_exit two_times ticks cfg fresh 0 (at_price 90)).reason ≡ none) ↔ (
      (¬ IsEmergency two_times ticks cfg (at_price 90))
      × (true ≡ true)
      × (1 < 3)
      × (0 + 1 < 3)
      × ((◌≡◌ {A = ℕ} 0 0) ⊎ (waited two_times ticks cfg fresh 0 < 0)))
held_back_iff_example = held_back_iff two_times ticks cfg fresh 0 (at_price 90) refl

abbrev once : ExitConfirmationState
once = record fresh {
  take_profit_breach_count = 1;
  take_profit_peak_pct = some (pos 12);
  take_profit_peak_price = some 112;
}

take_profit_iff_example :
    ((evaluate_confirmed_exit two_times ticks cfg once 60 (at_price 106)).reason ≡ none) ↔ (
      ¬ (
        IsHeld cfg.take_profit_confirmation.min_hold_minutes 60 (at_price 106).entry_time
        × (((true ≡ true)
              × (FellBack once.take_profit_peak_pct (pos 6) (pos 5)
                  ⊎ (IsReached (at_price 106).take_profit 106 × (pos 5 ≤ℤ pos 0))))
            ⊎ (IsReached (at_price 106).take_profit 106 × (2 ≤ 1 + 1)))))
take_profit_iff_example =
    take_profit_iff two_times ticks cfg once 60 (at_price 106) (omega arith) refl

take_profit_across_stop_example :
    (evaluate_confirmed_exit two_times ticks cfg
      (evaluate_confirmed_exit two_times ticks cfg once 60 (at_price 90)).state
      120
      (at_price 111)).reason
    ≢ none
take_profit_across_stop_example =
    take_profit_across_stop two_times ticks cfg once 60 (at_price 90) 120 (at_price 111) refl refl
      refl refl refl refl
