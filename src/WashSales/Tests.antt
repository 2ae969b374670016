-- ===== src/WashSales/Tests.antt =====
-- Two fills of one symbol, the second of them at a loss.
use mlai_trade.Common.{ℕ, ◌≡◌, refl, true, false, some, List, [], ◌∷◌}
use mlai_trade.Common.Int.{pos, ◌+ℤ◌, max_ℤ}
use mlai_trade.Compliance.{
  wrap_i64, wash_sale_forward_block_days_for, wash_sale_safety_buffer_days_for,
}
use mlai_trade.Tax.Positions.{us}
use mlai_trade.WashSales.{
  Moment, Side, SyncedFill, Window, wash_sale_window_exists, insert_reconciled_wash_sale,
  match_loop, match_fill_lots, after_loss, reconcile_loop, reconcile_wash_sales_for_tax_universe,
  has_wash_sale_window,
}
use mlai_trade.WashSales.Again.{read_at, IsFound, reconcile_again}

abbrev at : ℕ → Moment
at date = record { date = date; second = 0 }

abbrev fill : Side → ℕ → ℕ → ℕ → SyncedFill
fill side qty price date = record {
  provider = 1 ∷ [];
  account_ref = 2 ∷ [];
  paper_account = false;
  symbol = 65 ∷ [];
  side = side;
  qty = qty;
  price = price;
  transaction_time = some (at date);
  utc_now = at 900;
}

abbrev fills : List SyncedFill
fills = fill Side.buy 2000000000 1000 100 ∷ fill Side.sell 1500000000 900 110 ∷ []

abbrev tracked : List Window
tracked =
    record {
      symbol = 65 ∷ [];
      sell_timestamp_utc = at 110;
      sell_price = 900;
      loss_amount = 150000000000;
      wash_window_end = 141;
      is_active = true;
      provider = 1 ∷ [];
      account_ref = 2 ∷ [];
      paper_account = false;
    }
    ∷ []

one_window : (reconcile_wash_sales_for_tax_universe us (pos 1) fills []).tracker ≡ tracked
unfolding reconcile_wash_sales_for_tax_universe reconcile_loop after_loss match_fill_lots match_loop
    insert_reconciled_wash_sale wash_sale_window_exists wash_sale_forward_block_days_for
    wash_sale_safety_buffer_days_for wrap_i64 max_ℤ ◌+ℤ◌
one_window = refl

on_the_last_day : has_wash_sale_window us tracked false (65 ∷ []) 141 ≡ true
unfolding has_wash_sale_window
on_the_last_day = refl

on_the_next_day : has_wash_sale_window us tracked false (65 ∷ []) 142 ≡ false
unfolding has_wash_sale_window
on_the_next_day = refl

reconcile_again_example :
    IsFound (reconcile_wash_sales_for_tax_universe us (pos 1) fills []).tracker (
      reconcile_wash_sales_for_tax_universe us
        (pos 1)
        (read_at (at 950) (fill Side.buy 2000000000 1000 100)
          ∷ read_at (at 950) (fill Side.sell 1500000000 900 110)
          ∷ [])
        (reconcile_wash_sales_for_tax_universe us (pos 1) fills []).tracker)
reconcile_again_example = reconcile_again us (pos 1) fills [] (at 950) (refl, (refl, tt))
