-- ===== src/Buying/Guard.antt =====
-- What the cash-only guard of src/auto.rs leaves to be spent.
use mlai_trade.Common.{◌≡◌, ◌⊎◌, inl, inr, List, [], ◌∷◌, arith, Bool-cases}
use mlai_trade.Common.Int.{
  ℤ, pos, ◌+ℤ◌, ◌-ℤ◌, ◌≤ℤ◌, max_ℤ, int_laws, max_ℤ_bounds, min_ℤ_bounds, *ℤ_nonneg,
}
use mlai_trade.Buying.{
  Position, position_value, provider_long_market_value, OrderRow, is_terminal,
  pending_buy_order_value, pending_buy_reservations, CashOnlyGuard, cash_only_guard,
}

position_value_nonneg : (p : Position) → pos 0 ≤ℤ position_value p
unfolding position_value
position_value_nonneg p =
    grind (arith, *ℤ_nonneg p.qty p.current_price, *ℤ_nonneg p.qty p.avg_entry_price)

provider_long_market_value_nonneg : (ps : List Position) → pos 0 ≤ℤ provider_long_market_value ps
unfolding provider_long_market_value
provider_long_market_value_nonneg [] = omega arith
provider_long_market_value_nonneg (p ∷ ps) =
    omega (int_laws, position_value_nonneg p, provider_long_market_value_nonneg ps)

pending_buy_order_value_nonneg : (q f l a : ℤ) → pos 0 ≤ℤ pending_buy_order_value q f l a
unfolding pending_buy_order_value
pending_buy_order_value_nonneg q f l a =
    let remaining = max_ℤ (q -ℤ max_ℤ f (pos 0)) (pos 0) in
    let bounds = max_ℤ_bounds (q -ℤ max_ℤ f (pos 0)) (pos 0) in
    grind (arith, bounds, *ℤ_nonneg remaining l, *ℤ_nonneg remaining a)

pending_buy_reservations_nonneg : (rows : List OrderRow) → pos 0 ≤ℤ pending_buy_reservations rows
unfolding pending_buy_reservations
pending_buy_reservations_nonneg [] = omega arith
pending_buy_reservations_nonneg (row ∷ rows) = elim (Bool-cases (is_terminal row.status)) [
  | inl terminal ↦ rw (pending_buy_reservations, terminal) (pending_buy_reservations_nonneg rows)
  | inr open_order ↦
      rw (pending_buy_reservations, open_order)
        (omega (
          int_laws,
          pending_buy_order_value_nonneg row.qty row.filled_qty row.limit_price
              row.filled_avg_price,
          pending_buy_reservations_nonneg rows,
        ))
]

-- The exposure that the guard takes off, and the reserved cash with it.
abbrev pub committed : CashOnlyGuard → ℤ
committed g = max_ℤ g.provider_long_exposure g.local_auto_exposure +ℤ g.pending_buy_reserved

-- The deployable cash is the most that is neither above the provider's cash nor, together with the larger of
-- both exposures and the pending orders' reserve, above the equity; exposure and reserve are never negative.
pub cash_only_guard-IsLargest :
    (rows : List OrderRow) (provider_cash equity : ℤ) (positions : List Position)
    (local_auto_exposure : ℤ)
    → ((cash_only_guard rows provider_cash equity positions local_auto_exposure).deployable_cash
        ≤ℤ provider_cash)
      × ((cash_only_guard rows provider_cash equity positions local_auto_exposure).deployable_cash
            +ℤ committed (cash_only_guard rows provider_cash equity positions local_auto_exposure)
          ≤ℤ equity)
      × (((cash_only_guard rows provider_cash equity positions local_auto_exposure).deployable_cash
            ≡ provider_cash)
          ⊎ ((cash_only_guard rows provider_cash equity positions
                  local_auto_exposure).deployable_cash
                +ℤ committed
                    (cash_only_guard rows provider_cash equity positions local_auto_exposure)
              ≡ equity))
      × (pos 0
          ≤ℤ committed (cash_only_guard rows provider_cash equity positions local_auto_exposure))
unfolding cash_only_guard
cash_only_guard-IsLargest rows provider_cash equity positions local_auto_exposure =
    let long = provider_long_market_value positions in
    let reserved = pending_buy_reservations rows in
    let exposure = max_ℤ long local_auto_exposure in
    let (which, left, right) = min_ℤ_bounds provider_cash (equity -ℤ exposure -ℤ reserved) in
    let exposure_bounds = max_ℤ_bounds long local_auto_exposure in
    (
      left,
      omega (int_laws, right),
      elim which [ inl all_cash ↦ inl all_cash | inr rest ↦ inr (rw rest (omega int_laws)) ],
      omega (
        int_laws,
        exposure_bounds,
        provider_long_market_value_nonneg positions,
        pending_buy_reservations_nonneg rows,
      ),
    )
