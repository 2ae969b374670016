-- ===== src/Compliance.antt =====
-- The wash-sale rules of src/compliance.rs: the numbers of each country's profile and the days for which a
-- loss sale blocks the replacement. The texts of the profiles are left out. An i64 is an integer whose sum
-- wraps around, as in a release build.
mod Tests
use mlai_trade.Common.{
  ℕ, ◌+◌, ◌-◌, ◌%◌, ◌^◌, ltb, ◌≤◌, ◌≡◌, refl, ◌⊎◌, inl, inr, Bool, true, false, not, Option, none,
  some, arith, if◌then◌else◌,
}
use mlai_trade.Common.Int.{
  ℤ, pos, negsuc, pos_part, neg_part, ◌+ℤ◌, ◌≤ℤ◌, max_ℤ, max_ℤ_bounds, +ℤ_parts, leb_ℤ,
}
use mlai_trade.Tax.Positions.{TaxCountry, us, br, sg, gb}

abbrev pub irs_wash_sale_window_days : ℤ
irs_wash_sale_window_days = pos 30

abbrev pub default_wash_sale_safety_buffer_days : ℤ
default_wash_sale_safety_buffer_days = pos 1

abbrev pub min_wash_sale_safety_buffer_days : ℤ
min_wash_sale_safety_buffer_days = default_wash_sale_safety_buffer_days

pub record TaxCountryProfile : Type 0 where
  pub wash_sale_window_days : ℤ
  pub wash_sale_default_buffer_days : ℤ
  pub wash_sale_min_buffer_days : ℤ
  pub wash_sale_blocking_enabled : Bool

abbrev unblocked : TaxCountryProfile
unblocked = record {
  wash_sale_window_days = pos 0;
  wash_sale_default_buffer_days = pos 0;
  wash_sale_min_buffer_days = pos 0;
  wash_sale_blocking_enabled = false;
}

abbrev pub tax_country_profile : TaxCountry → TaxCountryProfile
tax_country_profile us = record {
  wash_sale_window_days = irs_wash_sale_window_days;
  wash_sale_default_buffer_days = default_wash_sale_safety_buffer_days;
  wash_sale_min_buffer_days = min_wash_sale_safety_buffer_days;
  wash_sale_blocking_enabled = true;
}
tax_country_profile br = unblocked
tax_country_profile sg = unblocked
tax_country_profile gb = record {
  wash_sale_window_days = pos 30;
  wash_sale_default_buffer_days = pos 0;
  wash_sale_min_buffer_days = pos 0;
  wash_sale_blocking_enabled = true;
}

abbrev pub unwrap_or : Option ℤ → ℤ → ℤ
unwrap_or none d = d
unwrap_or (some a) d = a

unfoldable pub wash_sale_safety_buffer_days_for : TaxCountry → Option ℤ → ℤ
wash_sale_safety_buffer_days_for country configured =
    let profile = tax_country_profile country in
    if not profile.wash_sale_blocking_enabled
    then pos 0
    else max_ℤ (unwrap_or configured profile.wash_sale_default_buffer_days)
        profile.wash_sale_min_buffer_days

-- An i64 holds the integers from -2 ^ 63 below 2 ^ 63.
unfoldable pub wrap_i64 : ℤ → ℤ
wrap_i64 (pos n) = let r = n % 2 ^ 64 in if ltb r (2 ^ 63) then pos r else negsuc (2 ^ 64 - 1 - r)
wrap_i64 (negsuc n) =
    let r = n % 2 ^ 64 in if ltb r (2 ^ 63) then negsuc r else pos (2 ^ 64 - 1 - r)

unfoldable pub wash_sale_forward_block_days_for : TaxCountry → Option ℤ → ℤ
wash_sale_forward_block_days_for country configured_buffer =
    let profile = tax_country_profile country in
    if not profile.wash_sale_blocking_enabled
    then pos 0
    else wrap_i64 (
        profile.wash_sale_window_days +ℤ wash_sale_safety_buffer_days_for country configured_buffer)

-- The statutory window and the least buffer bound the days from below, and so does the configured buffer
-- behind the window.
abbrev pub IsFloored : TaxCountryProfile → Option ℤ → ℤ → Type 0
IsFloored profile configured days =
    (profile.wash_sale_window_days +ℤ profile.wash_sale_min_buffer_days ≤ℤ days)
    × (profile.wash_sale_window_days +ℤ unwrap_or configured profile.wash_sale_default_buffer_days
        ≤ℤ days)

-- The greatest buffer whose sum with the window of thirty days is an i64.
abbrev pub greatest_buffer : ℤ
greatest_buffer = pos (2 ^ 63 - 1 - 30)

sum_fits :
    (a : ℤ) → pos 0 ≤ℤ a → a ≤ℤ greatest_buffer → wrap_i64 (pos 30 +ℤ a) ≡ pos (30 + pos_part a)
unfolding wrap_i64 ◌+ℤ◌
sum_fits (pos n) h k = ground arith
sum_fits (negsuc n) h k = absurd (omega arith)

-- What a country with a window of thirty days blocks, for a buffer and its profile's least.
blocked-IsFloored :
    (a least : ℤ)
    → pos 0 ≤ℤ least
    → least ≤ℤ greatest_buffer
    → a ≤ℤ greatest_buffer
    → (leb_ℤ (wrap_i64 (pos 30 +ℤ max_ℤ a least)) (pos 0) ≡ false)
      × (pos 30 +ℤ least ≤ℤ wrap_i64 (pos 30 +ℤ max_ℤ a least))
      × (pos 30 +ℤ a ≤ℤ wrap_i64 (pos 30 +ℤ max_ℤ a least))
blocked-IsFloored a least low high small =
    let bounds = max_ℤ_bounds a least in
    let larger : max_ℤ a least ≤ℤ greatest_buffer = elim bounds.0 [
      | inl e ↦ rw e small
      | inr e ↦ rw e high
    ] in
    rw (sum_fits (max_ℤ a least) (omega (arith, bounds)) larger) (
      ground (arith, bounds),
      omega (arith, bounds, +ℤ_parts (pos 30) least),
      omega (arith, bounds, +ℤ_parts (pos 30) a),
    )

-- A country without the rule blocks for no day. One with it blocks, if the configured buffer or else the
-- profile's is at most 2 ^ 63 - 31, for more than none, for at least the window and the least buffer of its
-- profile and at least the window and the buffer that is configured.
pub wash_sale_forward_block_days_for-IsFloored :
    (country : TaxCountry) (configured : Option ℤ)
    → unwrap_or configured (tax_country_profile country).wash_sale_default_buffer_days
      ≤ℤ greatest_buffer
    → ((tax_country_profile country).wash_sale_blocking_enabled ≡ false)
        × (wash_sale_forward_block_days_for country configured ≡ pos 0)
      ⊎ ((tax_country_profile country).wash_sale_blocking_enabled ≡ true)
        × (leb_ℤ (wash_sale_forward_block_days_for country configured) (pos 0) ≡ false)
        × IsFloored
            (tax_country_profile country)
            configured
            (wash_sale_forward_block_days_for country configured)
unfolding wash_sale_forward_block_days_for wash_sale_safety_buffer_days_for
wash_sale_forward_block_days_for-IsFloored br configured small = inl (refl, refl)
wash_sale_forward_block_days_for-IsFloored sg configured small = inl (refl, refl)
wash_sale_forward_block_days_for-IsFloored us configured small =
    let buffer = unwrap_or configured (pos 1) in
    let blocked = blocked-IsFloored buffer (pos 1) (omega arith) (omega arith) small in
    inr (refl, blocked.0, (blocked.1, blocked.2))
wash_sale_forward_block_days_for-IsFloored gb configured small =
    let buffer = unwrap_or configured (pos 0) in
    let blocked = blocked-IsFloored buffer (pos 0) (omega arith) (omega arith) small in
    inr (refl, blocked.0, (blocked.1, blocked.2))
