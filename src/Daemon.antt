-- ===== src/Daemon.antt =====
-- The rounds of the loop of src/daemon.rs. `now` is the seconds of UTC. What a round reads of clocks and
-- files and how the commands that it runs come out is its input.
pub mod Backoff
pub mod History
pub mod Refreshes
mod Tests
use mlai_trade.Common.{
  ℕ, zero, suc, ◌+◌, ◌-◌, ◌*◌, ◌≤◌, ◌<◌, ◌≡◌, Bool, true, false, not, ◌&&◌, ◌||◌, Option, none,
  some, List, [], ◌∷◌, if◌then◌else◌, leb, ltb, ◌==◌,
}
use mlai_trade.Calendar.{Dates}
use mlai_trade.Schedule.{
  RefreshConfig, is_date, daily_refresh_due, MarketGuardrail, ClosedDecision,
  auto_market_closed_decision,
}

-- What `run_auto_cycle` and `run_daily_maintenance` come back with.
pub data CycleResult : Type 0 where
  market_closed other_result cycle_error : CycleResult

pub data Maintenance : Type 0 where
  completed lock_busy maintenance_error : Maintenance

-- What `run_daily_maintenance` depends on: its settings and how the lock and the commands come out.
pub record Commands : Type 0 where
  pub sync_orders : Bool
  pub feeds_sync : Bool
  pub lock_free : Bool
  pub sync_ok : Bool
  pub refresh_ok : Bool
  pub feeds_ok : Bool
  pub estimates_ok : Bool
  pub stamp_ok : Bool

unfoldable pub run_daily_maintenance : Commands → Maintenance
run_daily_maintenance c =
    if not c.lock_free
    then lock_busy
    else if c.sync_orders && not c.sync_ok
    then maintenance_error
    else if not c.refresh_ok
    then maintenance_error
    else if c.feeds_sync && not c.feeds_ok
    then maintenance_error
    else if not c.estimates_ok
    then maintenance_error
    else if not c.stamp_ok
    then maintenance_error
    else completed

-- What one round of the loop reads.
pub record Round : Type 0 where
  pub config_valid : Bool
  pub daemon_enabled : Bool
  pub market_date : ℕ
  pub market_time : ℕ
  pub now : ℕ
  pub cycle : CycleResult
  pub cache_enabled : Bool
  pub cache_interval : ℕ
  pub today : ℕ
  pub time : ℕ
  pub commands : Commands

-- The variables of the loop, the stamp file and what was done: the market dates of the cycles run, the starts
-- of the refreshes and the dates of those that completed, the latest first.
pub record DaemonState : Type 0 where
  pub backoff_date : Option ℕ
  pub pause_until : Option ℕ
  pub last_cache : Option ℕ
  pub last_daily : Option ℕ
  pub stamp : Option ℕ
  pub cycles : List ℕ
  pub attempts : List ℕ
  pub refreshed : List ℕ

abbrev pub later_than : ℕ → Option ℕ → Bool
later_than now none = false
later_than now (some until) = ltb now until

-- `elapsed() >= interval`, and true for no earlier time.
abbrev pub has_elapsed : ℕ → ℕ → Option ℕ → Bool
has_elapsed interval now none = true
has_elapsed interval now (some last) = leb interval (now - last)

module _ (dates : Dates) (to_utc : ℕ → ℕ → Option ℕ) (market : MarketGuardrail) where
  abbrev decision : Round → ClosedDecision
  decision r = auto_market_closed_decision dates to_utc market r.market_date r.market_time

  abbrev pause : ℕ → Option ℕ → Option ℕ
  pause now until = if later_than now until then until else none

  -- The dates of the backoff and of the pause behind a cycle that ran.
  abbrev backoff_behind : Round → CycleResult → Option ℕ
  backoff_behind r market_closed = if (decision r).should_backoff then some r.market_date else none
  backoff_behind r other_result = none
  backoff_behind r cycle_error = none

  abbrev pause_behind : Round → CycleResult → Option ℕ
  pause_behind r market_closed =
      if (decision r).should_backoff then none else pause r.now (decision r).next_check_at
  pause_behind r other_result = none
  pause_behind r cycle_error = none

  unfoldable pub trade_part : Round → DaemonState → DaemonState
  unfolding auto_market_closed_decision
  trade_part r s =
      if later_than r.now s.pause_until
      then s
      else if is_date s.backoff_date r.market_date
      then record s { pause_until = none }
      else record s {
        backoff_date = backoff_behind r r.cycle;
        pause_until = pause_behind r r.cycle;
        cycles = r.market_date ∷ s.cycles;
      }

unfoldable pub cache_part : Round → DaemonState → DaemonState
cache_part r s =
    if r.cache_enabled && has_elapsed r.cache_interval r.now s.last_cache
    then record s { last_cache = some r.now }
    else s

abbrev pub after_maintenance : ℕ → Maintenance → DaemonState → DaemonState
after_maintenance date completed s = record s { stamp = some date; refreshed = date ∷ s.refreshed }
after_maintenance date lock_busy s = s
after_maintenance date maintenance_error s = s

module _ (dates : Dates) (config : RefreshConfig) where
  abbrev pub attempt : Round → Option ℕ → DaemonState → DaemonState
  attempt r none s = s
  attempt r (some date) s =
      if has_elapsed 3600 r.now s.last_daily
      then after_maintenance date (run_daily_maintenance r.commands)
          (record s { last_daily = some r.now; attempts = r.now ∷ s.attempts })
      else s

  unfoldable pub daily_part : Round → DaemonState → DaemonState
  unfolding daily_refresh_due run_daily_maintenance
  daily_part r s = attempt r (daily_refresh_due dates config s.stamp r.today r.time) s

-- The loop over the rounds until it is stopped: a bad configuration is waited out.
unfoldable pub run_rounds :
    Dates
    → (ℕ → ℕ → Option ℕ)
    → MarketGuardrail
    → RefreshConfig
    → List Round
    → DaemonState
    → DaemonState
unfolding trade_part cache_part daily_part
run_rounds dates to_utc market config [] s = s
run_rounds dates to_utc market config (r ∷ rounds) s =
    let next = run_rounds dates to_utc market config rounds s in
    let body =
      run_rounds dates to_utc market config rounds
        (daily_part dates config r (cache_part r (trade_part dates to_utc market r s))) in
    if not r.config_valid then next else if not r.daemon_enabled then s else body
