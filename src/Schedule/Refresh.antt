-- ===== src/Schedule/Refresh.antt =====
-- When the daily refresh of src/daemon.rs is due, for the daemon and for a manual run.
use mlai_trade.Common.{ℕ, ◌≡◌, false, ◌&&◌, Option, none, some, arith, if◌then◌else◌}
use mlai_trade.Calendar.{Dates, is_weekend}
use mlai_trade.Schedule.{
  RefreshConfig, is_date, daily_refresh_due, manual_daily_refresh_success_date,
}

-- A manual run satisfies the refresh exactly when the refresh is due, except that on a weekend with a fixed
-- time of day the refresh is due and a manual run does not count.
manual_daily_refresh_success_date_lem :
    (dates : Dates) (config : RefreshConfig) (stamp : Option ℕ) (today time : ℕ)
    → manual_daily_refresh_success_date dates config stamp today time ≡ (
        if config.trigger_time && is_weekend dates today
        then none
        else daily_refresh_due dates config stamp today time)
unfolding manual_daily_refresh_success_date daily_refresh_due
manual_daily_refresh_success_date_lem dates config stamp today time = ground arith

pub due_date :
    (dates : Dates) (config : RefreshConfig) (stamp : Option ℕ) (today time date : ℕ)
    → daily_refresh_due dates config stamp today time ≡ some date
    → (date ≡ today) × (is_date stamp today ≡ false)
unfolding daily_refresh_due
due_date dates config stamp today time date h = ground (arith, h)
