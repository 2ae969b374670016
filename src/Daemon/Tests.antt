-- ===== src/Daemon/Tests.antt =====
-- A day of the daemon: a closed market and a refresh.
use mlai_trade.Common.{ℕ, ◌+◌, ◌*◌, ◌%◌, ◌≡◌, refl, true, false, Option, none, some, [], ◌∷◌, arith}
use mlai_trade.Common.Int.{pos, ◌+ℤ◌}
use mlai_trade.Calendar.{Dates}
use mlai_trade.Schedule.{
  RefreshConfig, MarketGuardrail, auto_market_closed_decision, daily_refresh_due,
}
use mlai_trade.Daemon.{
  market_closed, Commands, Round, DaemonState, trade_part, cache_part, daily_part, run_rounds,
}
use mlai_trade.Daemon.Backoff.{run_rounds-backoff}
use mlai_trade.Daemon.History.{Decreasing, Spaced}
use mlai_trade.Daemon.Refreshes.{run_rounds-once}

abbrev dates : Dates
dates = record {
  weekday = λ n. n % 7;
  year = λ n. 0;
  month = λ n. 0;
  day = λ n. n;
  from_ymd = λ y m d. d;
  weekday_lt = λ n. omega arith;
  weekday_next = λ n. omega arith;
}

abbrev to_utc : ℕ → ℕ → Option ℕ
to_utc date time = some (date * 86400 + time)

abbrev market : MarketGuardrail
market = record { regular_open = 34200; regular_close = 57600; closed_dates = [] }

abbrev config : RefreshConfig
config = record {
  enabled = true;
  trigger_time = false;
  time = 0;
  after_close = pos 1800;
  market_close = 57600;
  closed_dates = [];
}

abbrev fine : Commands
fine = record {
  sync_orders = true;
  feeds_sync = true;
  lock_free = true;
  sync_ok = true;
  refresh_ok = true;
  feeds_ok = true;
  estimates_ok = true;
  stamp_ok = true;
}

-- A round on day 703 at a time of the day.
abbrev round_at : ℕ → Round
round_at time = record {
  config_valid = true;
  daemon_enabled = true;
  market_date = 703;
  market_time = time;
  now = 703 * 86400 + time;
  cycle = market_closed;
  cache_enabled = true;
  cache_interval = 600;
  today = 703;
  time = time;
  commands = fine;
}

abbrev fresh : DaemonState
fresh = record {
  backoff_date = none;
  pause_until = none;
  last_cache = none;
  last_daily = none;
  stamp = some 702;
  cycles = [];
  attempts = [];
  refreshed = [];
}

one_refresh :
    (run_rounds dates to_utc market config (round_at 60000 ∷ round_at 64000 ∷ []) fresh).refreshed
    ≡ 703 ∷ []
unfolding run_rounds trade_part cache_part daily_part daily_refresh_due auto_market_closed_decision
    ◌+ℤ◌
one_refresh = refl

run_rounds-backoff_example :
    (run_rounds dates to_utc market config (round_at 60000 ∷ round_at 64000 ∷ []) fresh).cycles
    ≡ 703 ∷ []
unfolding auto_market_closed_decision
run_rounds-backoff_example =
    run_rounds-backoff dates to_utc market config (round_at 60000) (round_at 64000 ∷ []) fresh refl
      refl refl refl refl refl (refl, tt)

run_rounds-once_example :
    Decreasing
      (run_rounds dates to_utc market config (round_at 60000 ∷ round_at 64000 ∷ []) fresh).refreshed
    × Spaced
        (run_rounds dates to_utc market config
          (round_at 60000 ∷ round_at 64000 ∷ [])
          fresh).attempts
run_rounds-once_example =
    run_rounds-once dates to_utc market config (round_at 60000 ∷ round_at 64000 ∷ []) 703 fresh
      (omega arith, (omega arith, tt)) refl refl refl
