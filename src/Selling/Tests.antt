-- ===== src/Selling/Tests.antt =====
-- A cycle with three positions, and one with a closed window.
use mlai_trade.Common.{ℕ, ◌%◌, ◌≡◌, refl, true, false, none, some, List, [], ◌∷◌, arith}
use mlai_trade.Common.Int.{pos, negsuc, sub_ℕ, ◌-ℤ◌}
use mlai_trade.Calendar.{Dates, local_market_session_block, local_market_block, time_in_window}
use mlai_trade.Exit.{
  Reason, fresh, stop_loss_decision, take_profit_decision, evaluate_confirmed_exit,
  needs_market_order,
}
use mlai_trade.Buying.{OrderStatus}
use mlai_trade.Selling.{
  no_assets, asset_exit_risk, Offer, SellContext, SellState, exit_order_is_active, exit_reason,
  pdt_day_trades_count, place_exit, sell_step, sell_loop,
}

abbrev weekdays : Dates
weekdays = record {
  weekday = λ n. n % 7;
  year = λ n. 0;
  month = λ n. 0;
  day = λ n. n;
  from_ymd = λ y m d. d;
  weekday_lt = λ n. omega arith;
  weekday_next = λ n. omega arith;
}

-- Noon on a Wednesday, with the day trades of these dates.
abbrev at_noon : List ℕ → SellContext
at_noon day_trades = record {
  clock = record { utc_ts = λ t. "now"; parse_utc_ts = λ s. none };
  pnl_pct = λ current entry. sub_ℕ current entry;
  exit_config = record {
    stop_loss_confirmation = record {
      enabled = true;
      cycles = 3;
      max_confirmation_minutes = 0;
      emergency_stop_loss_pct = pos 20;
    };
    take_profit_confirmation = record {
      enabled = true;
      cycles = 2;
      min_hold_minutes = 0;
      trailing_enabled = false;
      trailing_giveback_pct = pos 5;
    };
  };
  ml_quintile_exit = 4;
  now = 1000;
  today = 702;
  dates = weekdays;
  schedule = record {
    regular_open = 34200;
    regular_close = 57600;
    buy_start = 36000;
    buy_end = 57000;
    sell_start = 34200;
    sell_end = 57300;
    closed_dates = [];
  };
  market_date = 702;
  market_time = 43200;
  order_snapshot = λ (id : List ℕ). none;
  day_trades = day_trades;
}

abbrev offer : ℕ → ℕ → Offer
offer id price = record {
  position = record {
    id = id;
    entry_price = 100;
    shares = 7;
    entry_time = none;
    stop_loss = some 95;
    take_profit = some 120;
    exit_by = some 710;
    exit_order_id = none;
    confirmation = fresh;
  };
  execution_price = some price;
  asset = no_assets;
  latest_quintile = some 2;
  bought_today = true;
  order_accepted = true;
}

-- An emergency, a first breach, and a price between the limits.
abbrev offers : List Offer
offers = offer 0 70 ∷ offer 1 90 ∷ offer 2 100 ∷ []

abbrev nothing : SellState
nothing = record { stored = []; sells = [] }

emergency_sold :
    (sell_loop (at_noon (701 ∷ 600 ∷ [])) offers nothing).sells
    ≡ record {
      id = 0;
      shares = 7;
      reason = Reason.stop_loss_emergency (negsuc 29) (pos 20);
      limit_price = none;
    }
      ∷ []
unfolding sell_loop sell_step place_exit exit_reason exit_order_is_active pdt_day_trades_count
    asset_exit_risk local_market_block local_market_session_block time_in_window
    evaluate_confirmed_exit stop_loss_decision take_profit_decision needs_market_order ◌-ℤ◌
emergency_sold = refl

limit_reached : (sell_loop (at_noon (701 ∷ 701 ∷ 700 ∷ [])) offers nothing).sells ≡ []
unfolding sell_loop sell_step place_exit exit_reason exit_order_is_active pdt_day_trades_count
    asset_exit_risk local_market_block local_market_session_block time_in_window
    evaluate_confirmed_exit stop_loss_decision take_profit_decision needs_market_order ◌-ℤ◌
limit_reached = refl

-- An exit order that is done for the day is no longer at work.
done_for_day_order :
    exit_order_is_active
      (record (at_noon []) {
        order_snapshot = λ (id : List ℕ). some (record {
          status = OrderStatus.done_for_day;
          filled_qty = pos 0;
          qty = pos 7000000000;
        });
      })
      (some (49 ∷ []))
    ≡ false
unfolding exit_order_is_active
done_for_day_order = refl
