-- ===== src/Calendar/Sessions.antt =====
-- The trading windows of src/auto.rs.
use mlai_trade.Common.{ℕ, ◌+◌, ◌-◌, ◌%◌, ◌≤◌, ◌<◌, ◌≡◌, ◌↔◌, true, false, none, arith, ◌==◌, any}
use mlai_trade.Calendar.{
  Dates, is_weekend, MarketSchedule, TradePhase, time_in_window, window_start, window_end,
  local_market_session_block, local_market_block,
}

abbrev pub day_seconds : ℕ
day_seconds = 86400

-- How far behind `start` the clock shows `time`.
abbrev pub since : ℕ → ℕ → ℕ
since start time = (time + day_seconds - start) % day_seconds

-- For times of the day, a window holds exactly the times that the clock reaches from its start
-- no later than its end, also when it goes past midnight.
time_in_window_lem :
    (now start end : ℕ)
    → now < day_seconds
    → start < day_seconds
    → end < day_seconds
    → (time_in_window now start end ≡ true) ↔ (since start now ≤ since start end)
unfolding time_in_window
time_in_window_lem now start end h k l = ground arith

-- Trading in a phase is not blocked exactly when the date is not on the closed list and no weekend, and
-- the time is in the regular hours and in the window of the phase.
local_market_block_iff :
    (dates : Dates) (s : MarketSchedule) (phase : TradePhase) (date time : ℕ)
    → (local_market_block dates s phase date time ≡ none) ↔ (
        (any (λ (closed : ℕ). closed == date) s.closed_dates ≡ false)
        × (is_weekend dates date ≡ false)
        × (time_in_window time s.regular_open s.regular_close ≡ true)
        × (time_in_window time (window_start s phase) (window_end s phase) ≡ true))
unfolding local_market_block local_market_session_block
local_market_block_iff dates s phase date time = ground arith
