-- ===== src/Calendar.antt =====
-- The market calendar of src/auto.rs and src/main.rs. A date is a day number and a time a number of
-- seconds of the day; the record `Dates` is chrono's `NaiveDate`, with the laws that the code relies on.
pub mod Holidays
pub mod Days
pub mod Previous
pub mod Sessions
mod Tests
use mlai_trade.Common.{
  ℕ, zero, suc, ◌+◌, ◌-◌, ◌*◌, ◌/◌, ◌%◌, ◌≤◌, ◌<◌, ◌≡◌, Bool, true, false, not, ◌&&◌, ◌||◌, Option,
  none, some, List, [], ◌∷◌, if◌then◌else◌, ltb, leb, ◌==◌, any,
}

-- A weekday is 0 for Monday to 6 for Sunday.
pub record Dates : Type 0 where
  pub weekday : ℕ → ℕ
  pub year : ℕ → ℕ
  pub month : ℕ → ℕ
  pub day : ℕ → ℕ
  pub from_ymd : ℕ → ℕ → ℕ → ℕ
  pub weekday_lt : (date : ℕ) → weekday date < 7
  pub weekday_next : (date : ℕ) → weekday (suc date) ≡ (weekday date + 1) % 7

-- The month and day of `easter_sunday`, which the source hands to `from_ymd_opt(..).unwrap()`.
pub record MonthDay : Type 0 where
  pub month : ℕ
  pub day : ℕ

unfoldable pub easter : ℕ → MonthDay
easter year =
    let a = year % 19 in
    let b = year / 100 in
    let c = year % 100 in
    let d = b / 4 in
    let e = b % 4 in
    let f = (b + 8) / 25 in
    let g = (b + 1 - f) / 3 in
    let h = (19 * a + b + 15 - d - g) % 30 in
    let i = c / 4 in
    let k = c % 4 in
    let l = (32 + 2 * e + 2 * i - h - k) % 7 in
    let m = (a + 11 * h + 22 * l) / 451 in
    record { month = (h + l + 114 - 7 * m) / 31; day = (h + l + 114 - 7 * m) % 31 + 1 }

module _ (dates : Dates) where
  open dates use {weekday, from_ymd}

  -- `easter_sunday`
  abbrev pub easter_sunday : ℕ → ℕ
  easter_sunday year = from_ymd year (easter year).month (easter year).day

  unfoldable pub nyse_observed : ℕ → ℕ → ℕ → ℕ
  nyse_observed year month day =
      let raw = from_ymd year month day in
      if weekday raw == 5 then raw - 1 else if weekday raw == 6 then raw + 1 else raw

  abbrev day_within : ℕ → ℕ → ℕ → Bool
  day_within date low high = leb low (dates.day date) && leb (dates.day date) high

  abbrev is_nth : ℕ → ℕ → ℕ → ℕ → ℕ → Bool
  is_nth date month day_of_week low high =
      (dates.month date == month) && (weekday date == day_of_week) && day_within date low high

  unfoldable pub is_nyse_holiday : ℕ → Bool
  unfolding nyse_observed easter
  is_nyse_holiday date =
      let year = dates.year date in
      (date == nyse_observed year 1 1)
      || ((dates.month date == 12) && (date == nyse_observed (year + 1) 1 1))
      || is_nth date 1 0 15 21
      || is_nth date 2 0 15 21
      || (date == easter_sunday year - 2)
      || is_nth date 5 0 25 31
      || (date == nyse_observed year 6 19)
      || (date == nyse_observed year 7 4)
      || is_nth date 9 0 1 7
      || is_nth date 11 3 22 28
      || (date == nyse_observed year 12 25)

  abbrev pub is_weekend : ℕ → Bool
  is_weekend date = (weekday date == 5) || (weekday date == 6)

  unfoldable pub is_market_day : ℕ → Bool
  unfolding is_nyse_holiday
  is_market_day date = not (is_weekend date) && not (is_nyse_holiday date)

  -- The loop from `d` on, for the days that are left.
  unfoldable pub count_loop : ℕ → ℕ → ℕ
  unfolding is_market_day
  count_loop zero d = 0
  count_loop (suc left) d = (if is_market_day d then 1 else 0) + count_loop left (d + 1)

  unfoldable pub count_market_days : ℕ → ℕ → ℕ
  unfolding count_loop
  count_market_days from to = if leb to from then 0 else count_loop (to - from) (from + 1)

  -- `predictions_are_stale` once both dates are read: `none` is the error that counts as stale.
  unfoldable pub predictions_are_stale : Option ℕ → ℕ → ℕ → Bool
  unfolding count_market_days
  predictions_are_stale none today max_age = true
  predictions_are_stale (some pred) today max_age = ltb max_age (count_market_days pred today)

  -- The loop of `add_business_days`, with the days to add, on fuel; `none` is fuel that ran out.
  unfoldable pub business_loop : ℕ → ℕ → ℕ → Option ℕ
  business_loop fuel date zero = some date
  business_loop zero date (suc left) = none
  business_loop (suc fuel) date (suc left) =
      business_loop fuel (suc date) (if is_weekend (suc date) then suc left else left)

  unfoldable pub add_business_days : ℕ → ℕ → Option ℕ
  unfolding business_loop
  add_business_days from days = business_loop (3 * days) from days

  abbrev pub is_open : List ℕ → ℕ → Bool
  is_open closed_dates date =
      not (is_weekend date) && not (any (λ closed. closed == date) closed_dates)

  -- `previous_open_market_date`, on fuel.
  unfoldable pub previous_open_market_date : List ℕ → ℕ → ℕ → Option ℕ
  previous_open_market_date closed_dates zero date = none
  previous_open_market_date closed_dates (suc fuel) date =
      let earlier = previous_open_market_date closed_dates fuel (date - 1) in
      if is_open closed_dates (date - 1) then some (date - 1) else earlier

-- The parts of `MarketSchedule` that the local clock is held against.
pub record MarketSchedule : Type 0 where
  pub regular_open : ℕ
  pub regular_close : ℕ
  pub buy_start : ℕ
  pub buy_end : ℕ
  pub sell_start : ℕ
  pub sell_end : ℕ
  pub closed_dates : List ℕ

pub data TradePhase : Type 0 where
  buy sell : TradePhase

-- The reasons of a block, in the order of the tests.
pub data Block : Type 0 where
  closed_date closed_weekend outside_regular_hours : Block
  outside_window : TradePhase → Block

unfoldable pub time_in_window : ℕ → ℕ → ℕ → Bool
time_in_window now start end =
    if leb start end then leb start now && leb now end else leb start now || leb now end

abbrev pub window_start : MarketSchedule → TradePhase → ℕ
window_start s buy = s.buy_start
window_start s sell = s.sell_start

abbrev pub window_end : MarketSchedule → TradePhase → ℕ
window_end s buy = s.buy_end
window_end s sell = s.sell_end

-- The local date and time are arguments; a block that is found is returned.
unfoldable pub local_market_session_block : Dates → MarketSchedule → ℕ → ℕ → Option Block
local_market_session_block dates s date time =
    if any (λ closed. closed == date) s.closed_dates
    then some closed_date
    else if is_weekend dates date
    then some closed_weekend
    else if not (time_in_window time s.regular_open s.regular_close)
    then some outside_regular_hours
    else none

abbrev or_block : Option Block → Option Block → Option Block
or_block none later = later
or_block (some b) later = some b

unfoldable pub local_market_block : Dates → MarketSchedule → TradePhase → ℕ → ℕ → Option Block
unfolding local_market_session_block
local_market_block dates s phase date time =
    or_block (local_market_session_block dates s date time) (
      if not (time_in_window time (window_start s phase) (window_end s phase))
      then some (outside_window phase)
      else none)
