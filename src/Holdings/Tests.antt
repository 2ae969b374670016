-- ===== src/Holdings/Tests.antt =====
-- Two positions: the provider has fewer shares of the one and none of the other.
use mlai_trade.Common.{
  ℕ, ◌+◌, ◌*◌, ◌≡◌, refl, true, none, some, List, [], ◌∷◌, arith, ◌==◌, if◌then◌else◌, All,
}
use mlai_trade.Common.Int.{pos}
use mlai_trade.Tax.Positions.{us, mlai_auto, provider_external}
use mlai_trade.WashSales.{Moment}
use mlai_trade.Candidates.{opened}
use mlai_trade.Holdings.{
  OpenAutoPosition, Row, World, State, provider_shares, entry_order_is_unfilled_or_active,
  record_exit, absent, split_off, reconcile_position, reconcile_loop,
  reconcile_open_positions_with_provider, with_shares,
}
use mlai_trade.Holdings.Blocked.{ExitBlocked, reconcile-ExitBlocked}
use mlai_trade.Holdings.Rows.{Outcome}
use mlai_trade.Holdings.InStep.{InStep, reconcile-InStep}
use mlai_trade.Holdings.Shares.{total_shares, unrecorded, gained, sum_over, reconcile-total_shares}

abbrev position : ℕ → ℕ → ℕ → OpenAutoPosition
position id symbol shares = record {
  id = id;
  symbol = symbol ∷ [];
  entry_price = 100;
  shares = shares;
  cost_basis = 100 * shares;
  order_id = none;
  entry_execution_origin = mlai_auto;
}

abbrev positions : List OpenAutoPosition
positions = position 0 65 10 ∷ position 1 66 5 ∷ []

abbrev open_row : ℕ → ℕ → Row
open_row symbol shares = record {
  symbol = symbol ∷ [];
  entry_price = 100;
  shares = shares;
  cost_basis = 100 * shares;
  status = opened;
  exit_date = none;
  exit_price = none;
  exit_reason = none;
  pnl = none;
  exit_order_id = none;
  entry_execution_origin = mlai_auto;
  exit_execution_origin = none;
  execution_origin = mlai_auto;
}

abbrev noon : Moment
noon = record { date = 200; second = 43200 }

-- Only the exit of `B` is found, at a loss.
abbrev world : World
world = record {
  account = record { provider = 1 ∷ []; account_ref = 2 ∷ []; is_paper = true };
  tax_country = us;
  safety_buffer_days = pos 1;
  provider_positions = record { symbol = 97 ∷ []; qty = pos 6500000000 } ∷ [];
  latest_provider_sell_exit = λ (p : OpenAutoPosition).
      if p.id == 1
      then some (record {
        timestamp = some noon;
        price = 90;
        order_id = none;
        execution_origin = provider_external;
      })
      else none;
  order_snapshot = λ (id : List ℕ). none;
  bought_on = λ (symbol : List ℕ) (date : ℕ). true;
  now = noon;
}

abbrev start : State
start = record {
  rows = λ (i : ℕ).
      if i == 0 then some (open_row 65 10) else if i == 1 then some (open_row 66 5) else none;
  next_id = 2;
  wash_sale_tracker = [];
  day_trades = [];
  kept = [];
}

six_stay :
    (reconcile_open_positions_with_provider world positions start).kept
    ≡ with_shares 6 (position 0 65 10) ∷ []
unfolding reconcile_open_positions_with_provider reconcile_loop reconcile_position absent split_off
    record_exit provider_shares entry_order_is_unfilled_or_active
six_stay = refl

-- Four of fifteen shares are in no row any more.
eleven_left :
    total_shares
      (reconcile_open_positions_with_provider world positions start).rows
      (reconcile_open_positions_with_provider world positions start).next_id
    ≡ 11
unfolding reconcile_open_positions_with_provider reconcile_loop reconcile_position absent split_off
    record_exit provider_shares entry_order_is_unfilled_or_active
eleven_left = refl

start-InStep : All (InStep start) positions
start-InStep = (
  (omega arith, (open_row 65 10, refl, refl, refl, refl)),
  ((omega arith, (open_row 66 5, refl, refl, refl, refl)), tt),
)

reconcile-InStep_example :
    All
      (λ (p : OpenAutoPosition).
        Outcome world ((reconcile_open_positions_with_provider world positions start).rows p.id) p)
      positions
    × All
        (InStep (reconcile_open_positions_with_provider world positions start))
        (reconcile_open_positions_with_provider world positions start).kept
reconcile-InStep_example =
    reconcile-InStep world positions start ((refl, tt), (tt, tt)) (refl, (refl, tt)) start-InStep

reconcile-total_shares_example :
    total_shares
        (reconcile_open_positions_with_provider world positions start).rows
        (reconcile_open_positions_with_provider world positions start).next_id
      + sum_over (unrecorded world) positions
    ≡ total_shares start.rows start.next_id + sum_over (gained world) positions
reconcile-total_shares_example =
    reconcile-total_shares world positions start ((refl, tt), (tt, tt)) start-InStep

reconcile-ExitBlocked_example :
    All
      (ExitBlocked world
        (reconcile_open_positions_with_provider world positions start).wash_sale_tracker
        210)
      positions
reconcile-ExitBlocked_example = reconcile-ExitBlocked world positions start 210 refl (omega arith)
