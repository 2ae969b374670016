-- ===== src/Compliance/Tests.antt =====
-- The days that a loss sale blocks, at configured buffers.
use mlai_trade.Common.{arith, ◌≡◌, refl, ◌⊎◌, false, true, none, some}
use mlai_trade.Common.Int.{pos, negsuc, ◌+ℤ◌, max_ℤ, leb_ℤ}
use mlai_trade.Tax.Positions.{us, br, gb}
use mlai_trade.Compliance.{
  tax_country_profile, wash_sale_safety_buffer_days_for, wash_sale_forward_block_days_for,
  IsFloored, wrap_i64, wash_sale_forward_block_days_for-IsFloored,
}

us_default : wash_sale_forward_block_days_for us none ≡ pos 31
unfolding wash_sale_forward_block_days_for wash_sale_safety_buffer_days_for wrap_i64 max_ℤ ◌+ℤ◌
us_default = refl

us_below : wash_sale_forward_block_days_for us (some (negsuc 4)) ≡ pos 31
unfolding wash_sale_forward_block_days_for wash_sale_safety_buffer_days_for wrap_i64 max_ℤ ◌+ℤ◌
us_below = refl

gb_more : wash_sale_forward_block_days_for gb (some (pos 5)) ≡ pos 35
unfolding wash_sale_forward_block_days_for wash_sale_safety_buffer_days_for wrap_i64 max_ℤ ◌+ℤ◌
gb_more = refl

br_none : wash_sale_forward_block_days_for br (some (pos 5)) ≡ pos 0
unfolding wash_sale_forward_block_days_for
br_none = refl

-- The sum wraps around, and no day is blocked.
us_overflow :
    leb_ℤ (wash_sale_forward_block_days_for us (some (pos 9223372036854775807))) (pos 0) ≡ true
unfolding wash_sale_forward_block_days_for wash_sale_safety_buffer_days_for wrap_i64 max_ℤ ◌+ℤ◌
us_overflow = refl

wash_sale_forward_block_days_for-IsFloored_example :
    ((tax_country_profile us).wash_sale_blocking_enabled ≡ false)
      × (wash_sale_forward_block_days_for us (some (negsuc 4)) ≡ pos 0)
    ⊎ ((tax_country_profile us).wash_sale_blocking_enabled ≡ true)
      × (leb_ℤ (wash_sale_forward_block_days_for us (some (negsuc 4))) (pos 0) ≡ false)
      × IsFloored
          (tax_country_profile us)
          (some (negsuc 4))
          (wash_sale_forward_block_days_for us (some (negsuc 4)))
wash_sale_forward_block_days_for-IsFloored_example =
    wash_sale_forward_block_days_for-IsFloored us (some (negsuc 4)) (omega arith)
