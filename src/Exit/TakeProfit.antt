-- ===== src/Exit/TakeProfit.antt =====
-- The take-profit side of src/auto.rs `evaluate_confirmed_exit`: the recorded peak, the minimum
-- holding time, the confirmation cycles and the trailing exit.
use mlai_trade.Common.{
  ◌⊎◌, inl, inr, ℕ, ◌+◌, ◌≤◌, leb, ◌≡◌, ◌≢◌, ◌↔◌, Bool, true, false, Option, none, some, arith,
  Bool-cases, Option-cases, is_some,
}
use mlai_trade.Common.Int.{ℤ, pos, ◌≤ℤ◌, +ℤ_parts}
use mlai_trade.Exit.{
  TextClock, StrategyConfig, ExitConfirmationState, ExitPriceContext, ExitConfirmationDecision,
  TakeProfitConfirmation, hold_ok, gave_back, at_or_below, at_or_above, count_take_profit,
  waiting_decision, stop_loss_decision, take_profit_decision, evaluate_confirmed_exit,
}
use mlai_trade.Exit.Conditions.{
  IsHeld, IsReached, IsAbove, FellBack, hold_ok_iff, at_or_above_iff, above_stop, gave_back_iff,
}

-- The state holds a peak percentage and a peak price, or neither.
abbrev pub HasPeakPair : ExitConfirmationState → Type 0
HasPeakPair s = is_some s.take_profit_peak_pct ≡ is_some s.take_profit_peak_price

-- `a` is no higher a peak than `b`.
abbrev pub PeakLe : Option ℤ → Option ℤ → Type 0
PeakLe none b = Unit {0}
PeakLe (some x) none = ⊥
PeakLe (some x) (some y) = x ≤ℤ y

PeakLe-refl : (a : Option ℤ) → PeakLe a a
PeakLe-refl none = tt
PeakLe-refl (some x) = omega arith

PeakLe-trans : (a b c : Option ℤ) → PeakLe a b → PeakLe b c → PeakLe a c
PeakLe-trans none b c p q = tt
PeakLe-trans (some x) none c p q = absurd p
PeakLe-trans (some x) (some y) none p q = absurd q
PeakLe-trans (some x) (some y) (some z) p q = omega arith

module _ (clock : TextClock) (pnl_pct : ℕ → ℕ → ℤ) (cfg : StrategyConfig) where
  abbrev decide : ExitConfirmationState → ℕ → ExitPriceContext → ExitConfirmationDecision
  decide = evaluate_confirmed_exit clock pnl_pct cfg

  abbrev tp : TakeProfitConfirmation
  tp = cfg.take_profit_confirmation

  abbrev pnl_of : ExitPriceContext → ℤ
  pnl_of p = pnl_pct p.current_price p.entry_price

  count-HasPeakPair :
      (s : ExitConfirmationState) (now price : ℕ) (pnl : ℤ) (seen : Bool)
      → HasPeakPair s
      → HasPeakPair (count_take_profit clock s now price pnl seen)
  unfolding count_take_profit
  count-HasPeakPair s now price pnl true h = ground arith
  count-HasPeakPair s now price pnl false h = ground arith

  count-PeakLe :
      (s : ExitConfirmationState) (now price : ℕ) (pnl : ℤ) (seen : Bool)
      → PeakLe s.take_profit_peak_pct
          (count_take_profit clock s now price pnl seen).take_profit_peak_pct
  unfolding count_take_profit
  count-PeakLe s now price pnl true = elim (Option-cases s.take_profit_peak_pct) [
    | inl e ↦ rw e tt
    | inr (x, e) ↦ ground (arith, PeakLe-refl (some x))
  ]
  count-PeakLe s now price pnl false = PeakLe-refl s.take_profit_peak_pct

  stop_state :
      (s : ExitConfirmationState) (now : ℕ) (pnl : ℤ)
      → let s' = (stop_loss_decision clock cfg s now pnl).state in
        (s'.take_profit_peak_pct ≡ s.take_profit_peak_pct)
        × (s'.take_profit_peak_price ≡ s.take_profit_peak_price)
        × (s'.take_profit_breach_count ≡ s.take_profit_breach_count)
  unfolding stop_loss_decision
  stop_state s now pnl = ground arith

  profit_state :
      (s : ExitConfirmationState) (now : ℕ) (p : ExitPriceContext) (pnl : ℤ)
      → (take_profit_decision clock cfg s now p pnl).state
        ≡ count_take_profit clock s now p.current_price pnl
            (at_or_above p.take_profit p.current_price)
  unfolding take_profit_decision waiting_decision
  profit_state s now p pnl = ground arith

  -- The stop-loss counter cleared, as on every path past the stop-loss branch.
  abbrev cleared : ExitConfirmationState → ExitConfirmationState
  cleared s = record s { stop_loss_breach_count = 0; stop_loss_first_breach_at = none }

  count-ge_pnl :
      (s : ExitConfirmationState) (now price : ℕ) (pnl : ℤ)
      → PeakLe (some pnl) (count_take_profit clock s now price pnl true).take_profit_peak_pct
  unfolding count_take_profit
  count-ge_pnl s now price pnl = elim (Option-cases s.take_profit_peak_pct) [
    | inl e ↦ rw e (PeakLe-refl (some pnl))
    | inr (x, e) ↦ rw e (ground arith)
  ]

  decide_breached :
      (s : ExitConfirmationState) (now : ℕ) (p : ExitPriceContext)
      → at_or_below p.stop_loss p.current_price ≡ true
      → decide s now p ≡ stop_loss_decision clock cfg s now (pnl_of p)
  unfolding evaluate_confirmed_exit
  decide_breached s now p b = rw b

  decide_above :
      (s : ExitConfirmationState) (now : ℕ) (p : ExitPriceContext)
      → at_or_below p.stop_loss p.current_price ≡ false
      → decide s now p ≡ take_profit_decision clock cfg (cleared s) now p (pnl_of p)
  unfolding evaluate_confirmed_exit
  decide_above s now p b = rw b

  -- Every cycle keeps the peak percentage and the peak price together, and never lowers the peak;
  -- a cycle above the stop that reaches the take-profit price leaves a peak of at least its gain.
  evaluate-peak :
      (s : ExitConfirmationState) (now : ℕ) (p : ExitPriceContext)
      → HasPeakPair s
      → let s' = (decide s now p).state in
        HasPeakPair s'
        × PeakLe s.take_profit_peak_pct s'.take_profit_peak_pct
        × ((at_or_below p.stop_loss p.current_price ≡ true)
            ⊎ (at_or_above p.take_profit p.current_price ≡ false)
            ⊎ PeakLe (some (pnl_of p)) s'.take_profit_peak_pct)
  evaluate-peak s now p h = elim (Bool-cases (at_or_below p.stop_loss p.current_price)) [
    | inl b ↦
        let (pct, price, _) = stop_state s now (pnl_of p) in
        rw (decide_breached s now p b, pct, price) (h, PeakLe-refl _, inl b)
    | inr b ↦
        let seen : Bool = at_or_above p.take_profit p.current_price in
        rw (decide_above s now p b, profit_state)
          (
            count-HasPeakPair (cleared s) now p.current_price (pnl_of p) seen h,
            count-PeakLe (cleared s) now p.current_price (pnl_of p) seen,
            elim (Bool-cases seen) [
              | inl e ↦ inr (inr (rw e (count-ge_pnl (cleared s) now p.current_price (pnl_of p))))
              | inr e ↦ inr (inl e)
            ],
          )
  ]

  profit_none_iff :
      (s : ExitConfirmationState) (now : ℕ) (p : ExitPriceContext) (pnl : ℤ)
      → tp.enabled ≡ true
      → let d = take_profit_decision clock cfg s now p pnl in
        (d.reason ≡ none) ↔ (
          ¬ (
            (hold_ok tp now p.entry_time ≡ true)
            × (((tp.trailing_enabled ≡ true)
                  × (gave_back d.state.take_profit_peak_pct pnl tp.trailing_giveback_pct ≡ true))
                ⊎ ((at_or_above p.take_profit p.current_price ≡ true)
                    × (tp.cycles ≤ s.take_profit_breach_count + 1)))))
  unfolding take_profit_decision waiting_decision
  profit_none_iff s now p pnl h = ground arith

  above_none_iff :
      (s : ExitConfirmationState) (now : ℕ) (p : ExitPriceContext)
      → at_or_below p.stop_loss p.current_price ≡ false
      → tp.enabled ≡ true
      → let d = decide s now p in
        (d.reason ≡ none) ↔ (
          ¬ (
            (hold_ok tp now p.entry_time ≡ true)
            × (((tp.trailing_enabled ≡ true)
                  × (gave_back d.state.take_profit_peak_pct (pnl_of p) tp.trailing_giveback_pct
                      ≡ true))
                ⊎ ((at_or_above p.take_profit p.current_price ≡ true)
                    × (tp.cycles ≤ s.take_profit_breach_count + 1)))))
  above_none_iff s now p b h =
      rw (decide_above s now p b) (profit_none_iff (cleared s) now p (pnl_of p) h)

  count-FellBack :
      (s : ExitConfirmationState) (now : ℕ) (p : ExitPriceContext) (pnl giveback : ℤ)
      → (gave_back
            (count_take_profit clock s now p.current_price pnl
              (at_or_above p.take_profit p.current_price)).take_profit_peak_pct
            pnl
            giveback
          ≡ true)
        ↔ (FellBack s.take_profit_peak_pct pnl giveback
            ⊎ (IsReached p.take_profit p.current_price × (giveback ≤ℤ pos 0)))
  unfolding count_take_profit
  count-FellBack s now p pnl giveback = elim (Option-cases p.take_profit) [
    | inl no_price ↦ elim (Option-cases s.take_profit_peak_pct) [
      | inl no_peak ↦ rw (no_price, no_peak) (ground arith)
      | inr (peak, e) ↦ rw (no_price, e) (grind (arith, gave_back_iff peak pnl giveback))
    ]
    | inr (price, t) ↦ elim (Bool-cases (leb price p.current_price)) [
      | inr below ↦ elim (Option-cases s.take_profit_peak_pct) [
        | inl no_peak ↦ rw (t, below, no_peak) (ground arith)
        | inr (peak, e) ↦ rw (t, below, e) (ground (arith, gave_back_iff peak pnl giveback))
      ]
      | inl reached ↦ elim (Option-cases s.take_profit_peak_pct) [
        | inl no_peak ↦
            rw (t, reached, no_peak)
              (ground (arith, gave_back_iff pnl pnl giveback, +ℤ_parts pnl giveback))
        | inr (peak, e) ↦
            rw (t, reached, e)
              (ground (
                arith,
                gave_back_iff peak pnl giveback,
                gave_back_iff pnl pnl giveback,
                +ℤ_parts pnl giveback,
              ))
      ]
    ]
  ]

  -- Above the stop and with confirmation enabled, a cycle sells exactly when the position was held for the
  -- least minutes and either trailing is enabled and the gain is below the recorded peak by the giveback, or
  -- this cycle is at the take-profit price with a giveback that is not positive, or the take-profit price is
  -- reached and this cycle completes the configured count.
  pub take_profit_iff :
      (s : ExitConfirmationState) (now : ℕ) (p : ExitPriceContext)
      → IsAbove p.stop_loss p.current_price
      → tp.enabled ≡ true
      → ((decide s now p).reason ≡ none) ↔ (
          ¬ (
            IsHeld tp.min_hold_minutes now p.entry_time
            × (((tp.trailing_enabled ≡ true)
                  × (FellBack s.take_profit_peak_pct (pnl_of p) tp.trailing_giveback_pct
                      ⊎ (IsReached p.take_profit p.current_price
                          × (tp.trailing_giveback_pct ≤ℤ pos 0))))
                ⊎ (IsReached p.take_profit p.current_price
                    × (tp.cycles ≤ s.take_profit_breach_count + 1)))))
  take_profit_iff s now p above en =
      let b = above_stop p.stop_loss p.current_price above in
      let none_iff = above_none_iff s now p b en in
      let held = hold_ok_iff tp now p.entry_time in
      let reached = at_or_above_iff p.take_profit p.current_price in
      let fell : (gave_back (decide s now p).state.take_profit_peak_pct (pnl_of p)
              tp.trailing_giveback_pct
            ≡ true)
          ↔ (FellBack s.take_profit_peak_pct (pnl_of p) tp.trailing_giveback_pct
              ⊎ (IsReached p.take_profit p.current_price × (tp.trailing_giveback_pct ≤ℤ pos 0))) =
        rw (decide_above s now p b, profit_state)
          (count-FellBack (cleared s) now p (pnl_of p) tp.trailing_giveback_pct) in
      (
        (λ e h. none_iff.0 e (
          held.1 h.0,
          elim h.1 [
            | inl (trailing, fallen) ↦ inl (trailing, fell.1 fallen)
            | inr (at, count) ↦ inr (reached.1 at, count)
          ],
        )),
        (λ n. none_iff.1 (λ h. n (
          held.0 h.0,
          elim h.1 [
            | inl (trailing, fallen) ↦ inl (trailing, fell.0 fallen)
            | inr (at, count) ↦ inr (reached.0 at, count)
          ],
        ))),
      )

  -- The take-profit cycles that are counted need not be consecutive: one cycle short of the count, a
  -- cycle at or below the stop that is held back in between does not stop the next cycle from selling.
  pub take_profit_across_stop :
      (s : ExitConfirmationState) (now : ℕ) (p : ExitPriceContext) (now' : ℕ)
      (p' : ExitPriceContext)
      → tp.enabled ≡ true
      → tp.cycles ≡ s.take_profit_breach_count + 1
      → at_or_below p.stop_loss p.current_price ≡ true
      → at_or_below p'.stop_loss p'.current_price ≡ false
      → at_or_above p'.take_profit p'.current_price ≡ true
      → hold_ok tp now' p'.entry_time ≡ true
      → (decide (decide s now p).state now' p').reason ≢ none
  take_profit_across_stop s now p now' p' en count b b' seen long held =
      (above_none_iff (decide s now p).state now' p' b' en).0 held (
        long,
        inr (seen, rw (decide_breached s now p b, (stop_state s now (pnl_of p)).2) (omega arith)),
      )
