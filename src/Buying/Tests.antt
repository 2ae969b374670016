-- ===== src/Buying/Tests.antt =====
-- A cycle with 1000 of cash, one position and one pending order.
use mlai_trade.Common.{◌%◌, arith, ◌≡◌, refl, ◌⊎◌, true, false, some, none, List, [], ◌∷◌}
use mlai_trade.Calendar.{Dates}
use mlai_trade.Common.Int.{pos, ◌+ℤ◌, ◌-ℤ◌, ◌*ℤ◌, min_ℤ, max_ℤ}
use mlai_trade.Buying.{
  Position, OrderStatus, OrderRow, cash_only_guard, BuyConfig, Candidate, shares_for,
  candidate_step, buy_phase, BuyContext, cycle_guard, cycle_buys,
}
use mlai_trade.Buying.Cycle.{IsWithin, buy_phase-IsWithin, IsCovered, cycle_buys-IsCovered}

abbrev held : List Position
held =
    record { qty = pos 2; market_value = pos 0; current_price = pos 100; avg_entry_price = pos 90 }
    ∷ []

abbrev pending : List OrderRow
pending =
    record {
      status = OrderStatus.other_status;
      qty = pos 3;
      filled_qty = pos 1;
      limit_price = pos 50;
      filled_avg_price = pos 0;
    }
    ∷ record {
      status = OrderStatus.filled;
      qty = pos 9;
      filled_qty = pos 9;
      limit_price = pos 50;
      filled_avg_price = pos 50;
    }
    ∷ []

deployable :
    (cash_only_guard pending (pos 1000) (pos 1200) held (pos 150)).deployable_cash ≡ pos 900
unfolding cash_only_guard ◌+ℤ◌ ◌-ℤ◌ ◌*ℤ◌ min_ℤ max_ℤ
deployable = refl

abbrev cfg : BuyConfig
cfg = record { position_size_pct = 2500; min_price = 5; slots = 3 }

abbrev candidates : List Candidate
candidates =
    record { symbol = 1; price = some 40; is_held = false; order_accepted = true }
    ∷ record { symbol = 1; price = some 40; is_held = false; order_accepted = true }
    ∷ record { symbol = 2; price = some 4; is_held = false; order_accepted = true }
    ∷ record { symbol = 3; price = none; is_held = false; order_accepted = true }
    ∷ record { symbol = 4; price = some 300; is_held = false; order_accepted = true }
    ∷ record { symbol = 5; price = some 100; is_held = false; order_accepted = true }
    ∷ []

two_buys :
    buy_phase cfg (pos 1200) false (pos 900) candidates
    ≡ record { symbol = 5; shares = 3; price = 100 }
      ∷ record { symbol = 4; shares = 1; price = 300 }
      ∷ record { symbol = 1; shares = 7; price = 40 }
      ∷ []
unfolding buy_phase ◌-ℤ◌ shares_for candidate_step
two_buys = refl

buy_phase-IsWithin_example :
    IsWithin cfg (pos 900) (buy_phase cfg (pos 1200) false (pos 900) candidates)
buy_phase-IsWithin_example = buy_phase-IsWithin cfg (pos 1200) false (pos 900) candidates

abbrev weekdays : Dates
weekdays = record {
  weekday = λ n. n % 7;
  year = λ n. 0;
  month = λ n. 0;
  day = λ n. n;
  from_ymd = λ y m d. d;
  weekday_lt = λ n. omega arith;
  weekday_next = λ n. omega arith;
}

-- Noon on a Wednesday.
abbrev noon : BuyContext
noon = record {
  dates = weekdays;
  schedule = record {
    regular_open = 34200;
    regular_close = 57600;
    buy_start = 36000;
    buy_end = 57000;
    sell_start = 34200;
    sell_end = 57300;
    closed_dates = [];
  };
  date = 702;
  time = 43200;
  stale_prediction_buy_block = true;
  prediction = some 701;
  today = 702;
  max_age = 2;
}

cycle_buys-IsCovered_example :
    (cycle_buys cfg noon pending (pos 1000) (pos 1200) held (pos 150 ∷ []) candidates ≡ [])
    ⊎ IsCovered noon
        (pos 1000)
        (pos 1200)
        (cycle_guard pending (pos 1000) (pos 1200) held (pos 150 ∷ []))
        (cycle_buys cfg noon pending (pos 1000) (pos 1200) held (pos 150 ∷ []) candidates)
cycle_buys-IsCovered_example =
    cycle_buys-IsCovered cfg noon pending (pos 1000) (pos 1200) held (pos 150 ∷ []) candidates
