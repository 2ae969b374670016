-- ===== src/Daemon/Backoff.antt =====
-- The market's close in src/daemon.rs: no further cycle on a date that was seen closed.
use mlai_trade.Common.{
  ℕ, ◌≤◌, ◌<◌, ◌≡◌, refl, ap, sym, ◌∙◌, ◌⊎◌, inl, inr, true, false, ◌&&◌, Option, none, some, List,
  [], ◌∷◌, arith, ◌==◌, Bool-cases, any, All, ◌↔◌,
}
use mlai_trade.Calendar.{Dates, is_weekend}
use mlai_trade.Schedule.{
  RefreshConfig, is_date, MarketGuardrail, auto_market_closed_decision, daily_refresh_due,
}
use mlai_trade.Daemon.{
  market_closed, Maintenance, completed, lock_busy, maintenance_error, Round, DaemonState,
  later_than, has_elapsed, trade_part, cache_part, run_daily_maintenance, after_maintenance,
  attempt, daily_part, run_rounds,
}

-- A state with the same cycles and the same backoff.
abbrev SameTrading : DaemonState → DaemonState → Type 0
SameTrading s s' = (s'.cycles ≡ s.cycles) × (s'.backoff_date ≡ s.backoff_date)

cache_part-SameTrading : (r : Round) (s : DaemonState) → SameTrading s (cache_part r s)
unfolding cache_part
cache_part-SameTrading r s =
    elim (Bool-cases (r.cache_enabled && has_elapsed r.cache_interval r.now s.last_cache)) [
      | inl due ↦ rw (cache_part, due) (refl, refl)
      | inr not_due ↦ rw (cache_part, not_due) (refl, refl)
    ]

module _ (dates : Dates) (config : RefreshConfig) where
  attempt-SameTrading :
      (r : Round) (due : Option ℕ) (s : DaemonState) → SameTrading s (attempt dates config r due s)
  attempt-SameTrading r none s = (refl, refl)
  attempt-SameTrading r (some date) s = elim (Bool-cases (has_elapsed 3600 r.now s.last_daily)) [
    | inl elapsed ↦ rw elapsed (behind (run_daily_maintenance r.commands))
    | inr waiting ↦ rw waiting (refl, refl)
  ]
    where
      behind :
          (m : Maintenance)
          → SameTrading s (
              after_maintenance date m
                (record s { last_daily = some r.now; attempts = r.now ∷ s.attempts }))
      behind completed = (refl, refl)
      behind lock_busy = (refl, refl)
      behind maintenance_error = (refl, refl)

module _ (dates : Dates) (to_utc : ℕ → ℕ → Option ℕ) (market : MarketGuardrail)
    (config : RefreshConfig) where
  -- What a round does besides waiting for a valid configuration.
  abbrev body : Round → DaemonState → DaemonState
  body r s = daily_part dates config r (cache_part r (trade_part dates to_utc market r s))

  rest-SameTrading :
      (r : Round) (s : DaemonState) → SameTrading (trade_part dates to_utc market r s) (body r s)
  unfolding daily_part
  rest-SameTrading r s =
      let traded = trade_part dates to_utc market r s in
      let (cycles, back) = cache_part-SameTrading r traded in
      let cached = cache_part r traded in
      let (cycles', back') =
        attempt-SameTrading dates config r
          (daily_refresh_due dates config cached.stamp r.today r.time) cached in
      (cycles' ∙ cycles, back' ∙ back)

  backed_off :
      (r : Round) (s : DaemonState)
      → s.backoff_date ≡ some r.market_date
      → SameTrading s (trade_part dates to_utc market r s)
  unfolding trade_part
  backed_off r s h = elim (Bool-cases (later_than r.now s.pause_until)) [
    | inl paused ↦ rw (trade_part, paused) (refl, refl)
    | inr awake ↦
        let same_day : (r.market_date == r.market_date) ≡ true = ground arith in
        let is_backoff : is_date s.backoff_date r.market_date ≡ true = rw h same_day in
        rw (trade_part, awake, is_backoff) (refl, refl)
  ]

  backed_off_rounds :
      (rounds : List Round) (s : DaemonState) (date : ℕ)
      → s.backoff_date ≡ some date
      → All (λ (r : Round). r.market_date ≡ date) rounds
      → (run_rounds dates to_utc market config rounds s).cycles ≡ s.cycles
  unfolding run_rounds
  backed_off_rounds [] s date h all = refl
  backed_off_rounds (r ∷ rounds) s date h (same, all) =
      let (cycles, back) = backed_off r s (h ∙ ap some (sym same)) in
      let (cycles', back') = rest-SameTrading r s in
      elim (Bool-cases r.config_valid) [
        | inl valid ↦ elim (Bool-cases r.daemon_enabled) [
          | inl enabled ↦
              rw (run_rounds, valid, enabled)
                (backed_off_rounds rounds (body r s) date (back' ∙ back ∙ h) all ∙ cycles' ∙ cycles)
          | inr disabled ↦ rw (run_rounds, valid, disabled) refl
        ]
        | inr invalid ↦ rw (run_rounds, invalid) (backed_off_rounds rounds s date h all)
      ]

  cycle_ran :
      (r : Round) (s : DaemonState)
      → later_than r.now s.pause_until ≡ false
      → is_date s.backoff_date r.market_date ≡ false
      → r.cycle ≡ market_closed
      → (auto_market_closed_decision dates to_utc market r.market_date r.market_time).should_backoff
        ≡ true
      → ((trade_part dates to_utc market r s).cycles ≡ r.market_date ∷ s.cycles)
        × ((trade_part dates to_utc market r s).backoff_date ≡ some r.market_date)
  unfolding trade_part
  cycle_ran r s awake fresh closed final = rw (trade_part, awake, fresh, closed, final) (refl, refl)

  -- A round that runs a cycle, is told that the market is closed and finds the date closed for good is the
  -- last to run a cycle on that date: whatever rounds of the date follow, no cycle is added.
  pub run_rounds-backoff :
      (r : Round) (rounds : List Round) (s : DaemonState)
      → r.config_valid ≡ true
      → r.daemon_enabled ≡ true
      → later_than r.now s.pause_until ≡ false
      → is_date s.backoff_date r.market_date ≡ false
      → r.cycle ≡ market_closed
      → (auto_market_closed_decision dates to_utc market r.market_date r.market_time).should_backoff
        ≡ true
      → All (λ (later : Round). later.market_date ≡ r.market_date) rounds
      → (run_rounds dates to_utc market config (r ∷ rounds) s).cycles ≡ r.market_date ∷ s.cycles
  unfolding run_rounds
  run_rounds-backoff r rounds s valid enabled awake fresh closed final all =
      let (cycles, back) = cycle_ran r s awake fresh closed final in
      let (cycles', back') = rest-SameTrading r s in
      rw (run_rounds, valid, enabled)
        (backed_off_rounds rounds (body r s) r.market_date (back' ∙ back) all ∙ cycles' ∙ cycles)

-- A closed market is final for its date exactly when the date is on the closed list, is a weekend, or the
-- session does not pass midnight and its close has gone by.
should_backoff_iff :
    (dates : Dates) (to_utc : ℕ → ℕ → Option ℕ) (market : MarketGuardrail)
    (market_date market_time : ℕ)
    → ((auto_market_closed_decision dates to_utc market market_date market_time).should_backoff
        ≡ true)
      ↔ ((any (λ (closed : ℕ). closed == market_date) market.closed_dates ≡ true)
          ⊎ (is_weekend dates market_date ≡ true)
          ⊎ ((market.regular_open ≤ market.regular_close) × (market.regular_close < market_time)))
unfolding auto_market_closed_decision
should_backoff_iff dates to_utc market market_date market_time = ground arith
