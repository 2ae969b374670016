-- ===== src/Schedule/Tests.antt =====
-- The daily refresh on a weekday and on a weekend.
use mlai_trade.Common.{◌%◌, ◌≡◌, refl, true, false, none, some, [], ◌∷◌, arith}
use mlai_trade.Common.Int.{pos, ◌+ℤ◌}
use mlai_trade.Calendar.{Dates}
use mlai_trade.Schedule.{RefreshConfig, daily_refresh_due}

abbrev dates : Dates
dates = record {
  weekday = λ n. n % 7;
  year = λ n. 0;
  month = λ n. 0;
  day = λ n. n;
  from_ymd = λ y m d. d;
  weekday_lt = λ n. omega arith;
  weekday_next = λ n. omega arith;
}

abbrev at_six : RefreshConfig
at_six = record {
  enabled = true;
  trigger_time = true;
  time = 64800;
  after_close = pos 0;
  market_close = 57600;
  closed_dates = [];
}

abbrev after_close : RefreshConfig
after_close = record {
  enabled = true;
  trigger_time = false;
  time = 0;
  after_close = pos 1800;
  market_close = 57600;
  closed_dates = 9 ∷ [];
}

due_on_saturday : daily_refresh_due dates at_six none 705 64800 ≡ some 705
unfolding daily_refresh_due
due_on_saturday = refl

not_yet : daily_refresh_due dates after_close none 703 59399 ≡ none
unfolding daily_refresh_due ◌+ℤ◌
not_yet = refl

due_after_close : daily_refresh_due dates after_close (some 702) 703 59400 ≡ some 703
unfolding daily_refresh_due ◌+ℤ◌
due_after_close = refl
