-- ===== src/Schedule.antt =====
-- The clock decisions of src/daemon.rs: when the daily refresh is due and what a closed market means. A date
-- is a day number, a time of the day its seconds.
pub mod Refresh
mod Tests
use mlai_trade.Common.{
  ℕ, zero, suc, ◌+◌, ◌-◌, ◌*◌, ◌≤◌, ◌<◌, ◌≡◌, Bool, true, false, not, ◌&&◌, ◌||◌, Option, none,
  some, List, [], ◌∷◌, ◌++◌, if◌then◌else◌, leb, ltb, ◌==◌, any,
}
use mlai_trade.Common.Int.{ℤ, pos, ◌+ℤ◌, ltb_ℤ}
use mlai_trade.Calendar.{Dates, is_weekend}

-- `DaemonDailyRefreshConfig` and the market's settings that go with it; the times are parsed.
pub record RefreshConfig : Type 0 where
  pub enabled : Bool
  pub trigger_time : Bool
  pub time : ℕ
  pub after_close : ℤ
  pub market_close : ℕ
  pub closed_dates : List ℕ

abbrev pub is_date : Option ℕ → ℕ → Bool
is_date none date = false
is_date (some d) date = d == date

abbrev pub is_closed : RefreshConfig → ℕ → Bool
is_closed config today = any (λ (closed : ℕ). closed == today) config.closed_dates

-- `now.naive_local() < due_at`, both counted from the same day.
abbrev pub before_due : RefreshConfig → ℕ → ℕ → Bool
before_due config today time =
    ltb_ℤ (pos (today * 86400 + time))
      (pos (today * 86400 + config.market_close) +ℤ config.after_close)

module _ (dates : Dates) (config : RefreshConfig) where
  -- The stamp is the date of the file, if there is one.
  unfoldable pub daily_refresh_due : Option ℕ → ℕ → ℕ → Option ℕ
  daily_refresh_due stamp today time =
      if not config.enabled
      then none
      else if is_date stamp today
      then none
      else if config.trigger_time
      then if ltb time config.time then none else some today
      else if is_closed config today
      then none
      else if is_weekend dates today
      then none
      else if before_due config today time
      then none
      else some today

  unfoldable pub manual_daily_refresh_success_date : Option ℕ → ℕ → ℕ → Option ℕ
  manual_daily_refresh_success_date stamp today time =
      if not config.enabled
      then none
      else if is_date stamp today
      then none
      else if is_weekend dates today
      then none
      else if config.trigger_time
      then if leb config.time time then some today else none
      else if is_closed config today
      then none
      else if not (before_due config today time)
      then some today
      else none

-- The stamp behind `mark_manual_daily_refresh_success`, and the date that it returns.
unfoldable pub mark_manual_daily_refresh_success :
    Dates → RefreshConfig → Option ℕ → ℕ → ℕ → Option ℕ
unfolding manual_daily_refresh_success_date
mark_manual_daily_refresh_success dates config stamp today time =
    elim (manual_daily_refresh_success_date dates config stamp today time) [
      | none ↦ stamp
      | some date ↦ some date
    ]

pub record MarketGuardrail : Type 0 where
  pub regular_open : ℕ
  pub regular_close : ℕ
  pub closed_dates : List ℕ

pub data ClosedStatus : Type 0 where
  backoff_until_next_market_date waiting_for_market_open market_closed_retrying : ClosedStatus

pub record ClosedDecision : Type 0 where
  pub should_backoff : Bool
  pub status : ClosedStatus
  pub next_check_date : Option ℕ
  pub next_check_at : Option ℕ

abbrev backoff : ℕ → ClosedDecision
backoff market_date = record {
  should_backoff = true;
  status = backoff_until_next_market_date;
  next_check_date = some (market_date + 1);
  next_check_at = none;
}

abbrev minute_before : Option ℕ → Option ℕ
minute_before none = none
minute_before (some at) = some (at - 60)

abbrev keep_trying : ClosedDecision
keep_trying = record {
  should_backoff = false;
  status = market_closed_retrying;
  next_check_date = none;
  next_check_at = none;
}

-- `to_utc` is chrono's conversion of a local time, which has no result in the gap of a change of clocks.
unfoldable pub auto_market_closed_decision :
    Dates → (ℕ → ℕ → Option ℕ) → MarketGuardrail → ℕ → ℕ → ClosedDecision
auto_market_closed_decision dates to_utc market market_date market_time =
    if any (λ (closed : ℕ). closed == market_date) market.closed_dates
    then backoff market_date
    else if is_weekend dates market_date
    then backoff market_date
    else if leb market.regular_open market.regular_close && ltb market_time market.regular_open
    then record {
      should_backoff = false;
      status = waiting_for_market_open;
      next_check_date = none;
      next_check_at = minute_before (to_utc market_date market.regular_open);
    }
    else if leb market.regular_open market.regular_close && ltb market.regular_close market_time
    then backoff market_date
    else keep_trying
