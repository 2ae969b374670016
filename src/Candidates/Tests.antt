-- ===== src/Candidates/Tests.antt =====
-- A day's choice among three predictions.
use mlai_trade.Common.{ℕ, ◌≡◌, refl, arith, ◌↔◌, true, false, some, none, List, [], ◌∷◌, All, take}
use mlai_trade.Common.Int.{pos, max_ℤ, ◌+ℤ◌}
use mlai_trade.Tax.Positions.{us}
use mlai_trade.WashSales.{forward_days, Side, SyncedFill, has_wash_sale_window, no_lots}
use mlai_trade.WashSales.Blocks.{loss_sales}
use mlai_trade.Compliance.{
  wash_sale_forward_block_days_for, wash_sale_safety_buffer_days_for, wrap_i64,
}
use mlai_trade.WashSales.Windows.{IsCurrent}
use mlai_trade.Candidates.{
  Prediction, BuyCandidate, StrategyConfig, Context, latest_date, is_blocked_symbol, option_loop,
  compact, looks_like_option_symbol, is_blocked, has_exit_cooldown, is_eligible, insert_row,
  order_rows, find_loop, find_buy_candidates,
}
use mlai_trade.Candidates.Options.{IsOption, looks_like_option_symbol_iff}
use mlai_trade.Candidates.Chosen.{eligible_rows, ordered_at, find_buy_candidates-take}
use mlai_trade.Candidates.Compliant.{IsNoReplacement, monitored, candidates-IsNoReplacement}

-- `F240119C00150000`
abbrev option_symbol : List ℕ
option_symbol = 70 ∷ 50 ∷ 52 ∷ 48 ∷ 49 ∷ 49 ∷ 57 ∷ 67 ∷ 48 ∷ 48 ∷ 49 ∷ 53 ∷ 48 ∷ 48 ∷ 48 ∷ 48 ∷ []

is_option : looks_like_option_symbol option_symbol ≡ true
unfolding looks_like_option_symbol option_loop
is_option = refl

no_root : looks_like_option_symbol (50 ∷ 52 ∷ 48 ∷ 49 ∷ 49 ∷ 57 ∷ 67 ∷ []) ≡ false
unfolding looks_like_option_symbol option_loop
no_root = refl

abbrev cfg : StrategyConfig
cfg = record {
  min_price = 500;
  min_avg_volume = pos 1000;
  ml_quintile_buy = 1;
  exit_cooldown_days = pos 3;
  tax_country = us;
  blocked_symbols = (32 ∷ 109 ∷ []) ∷ [];
}

abbrev predicted : ℕ → ℕ → ℕ → Prediction
predicted symbol date score = record {
  symbol = symbol ∷ [];
  date = date;
  predicted_quintile = 1;
  ensemble_score = none;
  predicted_score = some (pos score);
}

abbrev ctx : Context
ctx = record {
  account = record { provider = 1 ∷ []; account_ref = 2 ∷ []; is_paper = false };
  predictions =
      predicted 65 120 3
      ∷ predicted 66 120 5
      ∷ predicted 67 120 7
      ∷ predicted 77 120 9
      ∷ predicted 68 119 9
      ∷ [];
  positions = [];
  wash_sale_tracker = [];
  bars = λ (symbol : List ℕ). record { close = 1000; volume = 5000 } ∷ [];
  provider_open_symbols = (66 ∷ []) ∷ [];
  today = 121;
}

abbrev fill : Side → ℕ → ℕ → SyncedFill
fill side price date = record {
  provider = 1 ∷ [];
  account_ref = 2 ∷ [];
  paper_account = false;
  symbol = 65 ∷ [];
  side = side;
  qty = 1000000000;
  price = price;
  transaction_time = some (record { date = date; second = 0 });
  utc_now = record { date = 120; second = 0 };
}

-- `A` is sold at a loss eleven days before.
abbrev fills : List SyncedFill
fills = fill Side.buy 1000 100 ∷ fill Side.sell 900 110 ∷ []

abbrev chosen : ℕ → ℕ → BuyCandidate
chosen symbol score = record { symbol = symbol ∷ []; ml_score = pos score; ml_quintile = 1 }

-- `M` is configured as blocked and the provider holds `B`.
two_candidates : find_buy_candidates cfg ctx ≡ chosen 67 7 ∷ chosen 65 3 ∷ []
unfolding find_buy_candidates find_loop order_rows insert_row is_eligible is_blocked
    is_blocked_symbol looks_like_option_symbol option_loop has_wash_sale_window has_exit_cooldown
two_candidates = refl

looks_like_option_symbol_iff_example :
    (looks_like_option_symbol option_symbol ≡ true) ↔ IsOption (compact option_symbol)
looks_like_option_symbol_iff_example = looks_like_option_symbol_iff option_symbol

find_buy_candidates-take_example :
    find_buy_candidates cfg ctx
    ≡ take 50 (eligible_rows cfg ctx (ordered_at cfg ctx (latest_date ctx.predictions)))
find_buy_candidates-take_example = find_buy_candidates-take cfg ctx

-- The row of a sale of `C` two days before, with the end that a buffer of one day gives.
abbrev with_row : Context
with_row = record ctx {
  wash_sale_tracker =
      record {
        symbol = 67 ∷ [];
        sell_timestamp_utc = record { date = 119; second = 0 };
        sell_price = 900;
        loss_amount = 150000000000;
        wash_window_end = 150;
        is_active = true;
        provider = 1 ∷ [];
        account_ref = 2 ∷ [];
        paper_account = false;
      }
      ∷ [];
}

row-IsCurrent : All (IsCurrent (forward_days us (pos 1))) with_row.wash_sale_tracker
unfolding wash_sale_forward_block_days_for wash_sale_safety_buffer_days_for wrap_i64 max_ℤ ◌+ℤ◌
row-IsCurrent = ((refl, omega arith), tt)

candidates-IsNoReplacement_example :
    All
      (λ (c : BuyCandidate).
        All (IsNoReplacement cfg (pos 1) with_row c) (loss_sales fills no_lots))
      (find_buy_candidates cfg (monitored cfg (pos 1) fills with_row))
candidates-IsNoReplacement_example =
    candidates-IsNoReplacement cfg (pos 1) fills with_row refl (omega arith) row-IsCurrent
