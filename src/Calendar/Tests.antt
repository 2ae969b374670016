-- ===== src/Calendar/Tests.antt =====
-- The calendar on concrete dates, with years of twelve months of 31 days.
use mlai_trade.Common.{ℕ, ◌+◌, ◌-◌, ◌*◌, ◌/◌, ◌%◌, ◌≡◌, refl, some, [], ◌∷◌, arith}
use mlai_trade.Calendar.{Dates, easter, MarketSchedule, add_business_days}
use mlai_trade.Calendar.Days.{IsBusinessDay, add_business_days-IsBusinessDay}

abbrev long_months : Dates
long_months = record {
  weekday = λ n. n % 7;
  year = λ n. n / 372;
  month = λ n. n % 372 / 31 + 1;
  day = λ n. n % 31 + 1;
  from_ymd = λ y m d. y * 372 + (m - 1) * 31 + (d - 1);
  weekday_lt = λ n. omega arith;
  weekday_next = λ n. omega arith;
}

easter_2024 : easter 2024 ≡ record { month = 3; day = 31 }
unfolding easter
easter_2024 = refl

easter_2025 : easter 2025 ≡ record { month = 4; day = 20 }
unfolding easter
easter_2025 = refl

three_days : add_business_days long_months 703 3 ≡ some 708
unfolding add_business_days
three_days = refl

add_business_days-IsBusinessDay_example :
    (to : ℕ) × (add_business_days long_months 703 3 ≡ some to) × IsBusinessDay long_months 703 3 to
add_business_days-IsBusinessDay_example = add_business_days-IsBusinessDay long_months 703 3

abbrev nyse : MarketSchedule
nyse = record {
  regular_open = 34200;
  regular_close = 57600;
  buy_start = 36000;
  buy_end = 57000;
  sell_start = 34200;
  sell_end = 57300;
  closed_dates = 704 ∷ [];
}
