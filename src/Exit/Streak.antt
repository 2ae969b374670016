-- ===== src/Exit/Streak.antt =====
-- The stop-loss side of src/auto.rs `evaluate_confirmed_exit`: when a breached stop is held back,
-- and what the counter and the time of the first breach record over successive cycles.
use mlai_trade.Common.{
  ℕ, ◌+◌, ◌≤◌, ◌<◌, ◌≡◌, refl, ◌↔◌, ◌⊎◌, ◌≢◌, Bool, true, false, Option, none, some, List, [], ◌∷◌,
  String, arith, if◌then◌else◌, length, All, Option-cases, Bool-cases, inl, inr,
}
use mlai_trade.Common.Int.{ℤ, pos, ◌-ℤ◌, ◌≤ℤ◌}
use mlai_trade.Exit.{
  TextClock, StrategyConfig, ExitConfirmationState, ExitPriceContext, ExitConfirmationDecision,
  StopLossConfirmation, at_or_below, or_now, get_or_zero, waiting_decision, elapsed_minutes,
  count_stop_loss_breach, stop_loss_decision, take_profit_decision, evaluate_confirmed_exit,
  evaluate_cycles, needs_market_order, Reason,
}

-- The cycle's price is at or below the stop.
abbrev pub is_breached : ExitPriceContext → Bool
is_breached p = at_or_below p.stop_loss p.current_price

-- The number of breached cycles at the end of a history, after `n` before it.
abbrev pub streak : ℕ → List (ℕ × ExitPriceContext) → ℕ
streak n [] = n
streak n ((_, p) ∷ rest) = streak (if is_breached p then n + 1 else 0) rest

-- Whether a reason was given, and it is one that is placed as a market order.
abbrev pub asks_market_order : Option Reason → Bool
asks_market_order none = false
asks_market_order (some r) = needs_market_order r

module _ (clock : TextClock) where
  -- The time of the first breached cycle of that streak.
  abbrev pub streak_start : Option String → List (ℕ × ExitPriceContext) → Option String
  streak_start t [] = t
  streak_start t ((now, p) ∷ rest) =
      streak_start (if is_breached p then or_now t (clock.utc_ts now) else none) rest

  module _ (pnl_pct : ℕ → ℕ → ℤ) (cfg : StrategyConfig) where
    abbrev decide : ExitConfirmationState → ℕ → ExitPriceContext → ExitConfirmationDecision
    decide = evaluate_confirmed_exit clock pnl_pct cfg

    abbrev sl : StopLossConfirmation
    sl = cfg.stop_loss_confirmation

    abbrev pnl_of : ExitPriceContext → ℤ
    pnl_of p = pnl_pct p.current_price p.entry_price

    step_count :
        (s : ExitConfirmationState) (now : ℕ) (p : ExitPriceContext)
        → (decide s now p).state.stop_loss_breach_count
          ≡ (if is_breached p then s.stop_loss_breach_count + 1 else 0)
    unfolding evaluate_confirmed_exit stop_loss_decision take_profit_decision
    step_count s now p = ground arith

    step_start :
        (s : ExitConfirmationState) (now : ℕ) (p : ExitPriceContext)
        → (decide s now p).state.stop_loss_first_breach_at
          ≡ (if is_breached p then or_now s.stop_loss_first_breach_at (clock.utc_ts now) else none)
    unfolding evaluate_confirmed_exit stop_loss_decision take_profit_decision
    step_start s now p = ground arith

    -- Over any cycles the stored count is the length of the streak of breached cycles that ends
    -- them, and the stored time is the time of that streak's first cycle: any other cycle clears both.
    evaluate_cycles-streak :
        (s : ExitConfirmationState) (h : List (ℕ × ExitPriceContext))
        → let s' = evaluate_cycles clock pnl_pct cfg s h in
          (s'.stop_loss_breach_count ≡ streak s.stop_loss_breach_count h)
          × (s'.stop_loss_first_breach_at ≡ streak_start s.stop_loss_first_breach_at h)
    unfolding evaluate_cycles
    evaluate_cycles-streak s [] = (refl, refl)
    evaluate_cycles-streak s ((now, p) ∷ h) =
        let ih = evaluate_cycles-streak (decide s now p).state h in
        (rw (← step_count s now p) ih.0, rw (← step_start s now p) ih.1)

    -- The emergency test, read as an order.
    abbrev pub IsEmergency : ExitPriceContext → Type 0
    IsEmergency p =
        ¬ (sl.emergency_stop_loss_pct ≤ℤ pos 0)
        × (pnl_of p ≤ℤ (pos 0 -ℤ sl.emergency_stop_loss_pct))

    -- Whole minutes since the first breach of the streak, this cycle's own where it is the first.
    abbrev pub waited : ExitConfirmationState → ℕ → ℕ
    waited s now =
        get_or_zero
          (elapsed_minutes clock now (or_now s.stop_loss_first_breach_at (clock.utc_ts now)))

    -- A breached stop is held back exactly when the loss is no emergency, confirmation is enabled
    -- with more than one cycle, this cycle is short of the last one, and no time limit has passed.
    pub held_back_iff :
        (s : ExitConfirmationState) (now : ℕ) (p : ExitPriceContext)
        → is_breached p ≡ true
        → ((decide s now p).reason ≡ none) ↔ (
            (¬ IsEmergency p)
            × (sl.enabled ≡ true)
            × (1 < sl.cycles)
            × (s.stop_loss_breach_count + 1 < sl.cycles)
            × ((sl.max_confirmation_minutes ≡ 0) ⊎ (waited s now < sl.max_confirmation_minutes)))
    unfolding evaluate_confirmed_exit stop_loss_decision count_stop_loss_breach
    held_back_iff s now p h = ground arith

    stop_loss-market :
        (s : ExitConfirmationState) (now : ℕ) (p : ExitPriceContext)
        → (asks_market_order (stop_loss_decision clock cfg s now (pnl_of p)).reason ≡ true)
          ↔ IsEmergency p
    unfolding stop_loss_decision needs_market_order
    stop_loss-market s now p = ground arith

    take_profit-market :
        (s : ExitConfirmationState) (now : ℕ) (p : ExitPriceContext)
        → asks_market_order (take_profit_decision clock cfg s now p (pnl_of p)).reason ≡ false
    unfolding take_profit_decision waiting_decision needs_market_order
    take_profit-market s now p = ground arith

    -- The evaluation asks for a market order exactly on a breached stop with an emergency loss.
    market_order_iff :
        (s : ExitConfirmationState) (now : ℕ) (p : ExitPriceContext)
        → (asks_market_order (decide s now p).reason ≡ true)
          ↔ ((is_breached p ≡ true) × IsEmergency p)
    unfolding evaluate_confirmed_exit
    market_order_iff s now p = elim (Bool-cases (is_breached p)) [
      | inl b ↦
          rw b
            (λ e. (refl, (stop_loss-market s now p).0 e), λ (_, e). (stop_loss-market s now p).1 e)
      | inr b ↦ rw (b, take_profit-market) (λ e. cc, λ (e, _). cc)
    ]

    -- Whether some cycle of a history decides to sell.
    abbrev pub Sells : ExitConfirmationState → List (ℕ × ExitPriceContext) → Type 0
    Sells s [] = ⊥
    Sells s ((now, p) ∷ h) = ((decide s now p).reason ≢ none) ⊎ Sells (decide s now p).state h

    -- A stop that stays breached is sold: within as many breached cycles in a row as are configured,
    -- less those already counted, some cycle decides to sell, whatever the times and losses are.
    breached-Sells :
        (s : ExitConfirmationState) (h : List (ℕ × ExitPriceContext))
        → All (λ c. is_breached c.1 ≡ true) h
        → 0 < length h
        → sl.cycles ≤ s.stop_loss_breach_count + length h
        → Sells s h
    breached-Sells s [] b n c = absurd (omega arith)
    breached-Sells s ((now, p) ∷ h) b n c = elim (Option-cases (decide s now p).reason) [
      | inl held ↦
          let facts = (held_back_iff s now p b.0).0 held in
          inr (
            breached-Sells (decide s now p).state h b.1 (omega arith)
              (ground (arith, step_count s now p)))
      | inr (r, e) ↦ inl (λ held. cc)
    ]
