-- ===== src/Tax/Positions.antt =====
-- The data of src/tax.rs: fills, lots and realized positions, and the origins of src/origin.rs.
-- A date is a day number. A quantity is a whole number of billionths of a share and a price a whole
-- number of cents, so a profit is a whole number of billionths of a cent; the rounding of f64 is not
-- modelled.
use mlai_trade.Common.{ℕ, Bool, true, false, String, ◌&&◌, leb}
use mlai_trade.Common.Int.{ℤ, pos, ◌-ℤ◌, ◌*ℤ◌}

pub data ExecutionOrigin : Type 0 where
  mlai_auto : ExecutionOrigin
  mlai_cli : ExecutionOrigin
  provider_external : ExecutionOrigin
  mixed : ExecutionOrigin
  unknown : ExecutionOrigin

abbrev pub as_str : ExecutionOrigin → String
as_str mlai_auto = "mlai_auto"
as_str mlai_cli = "mlai_cli"
as_str provider_external = "provider_external"
as_str mixed = "mixed"
as_str unknown = "unknown"

-- The derived equality.
abbrev pub origin_eq : ExecutionOrigin → ExecutionOrigin → Bool
origin_eq mlai_auto mlai_auto = true
origin_eq mlai_cli mlai_cli = true
origin_eq provider_external provider_external = true
origin_eq mixed mixed = true
origin_eq unknown unknown = true
origin_eq _ _ = false

pub data TaxCountry : Type 0 where
  us : TaxCountry
  br : TaxCountry
  sg : TaxCountry
  gb : TaxCountry

abbrev pub is_br : TaxCountry → Bool
is_br br = true
is_br us = false
is_br sg = false
is_br gb = false

pub record FillActivity : Type 0 where
  pub provider : String
  pub account_ref : String
  pub account_mode : String
  pub paper_account : Bool
  pub symbol : String
  pub side : String
  pub qty : ℕ
  pub price : ℕ
  pub date : ℕ
  pub execution_origin : ExecutionOrigin
  pub asset_market_country : TaxCountry

pub record OpenLot : Type 0 where
  pub date : ℕ
  pub qty : ℕ
  pub price : ℕ
  pub execution_origin : ExecutionOrigin

pub record ClosedPosition : Type 0 where
  pub provider : String
  pub account_ref : String
  pub account_mode : String
  pub paper_account : Bool
  pub symbol : String
  pub qty : ℕ
  pub entry_date : ℕ
  pub entry_price : ℕ
  pub exit_date : ℕ
  pub exit_price : ℕ
  pub pnl : ℤ
  pub entry_execution_origin : ExecutionOrigin
  pub exit_execution_origin : ExecutionOrigin
  pub execution_origin : ExecutionOrigin
  pub asset_market_country : TaxCountry
  pub source : String

-- The arguments `start`, `end` and `include_paper`.
pub record Period : Type 0 where
  pub start : ℕ
  pub end : ℕ
  pub include_paper : Bool

-- 0.0000001 shares.
abbrev pub dust : ℕ
dust = 100

abbrev pub profit : ℕ → ℕ → ℕ → ℤ
profit exit entry qty = (pos exit -ℤ pos entry) *ℤ pos qty

abbrev pub in_period : Period → ℕ → Bool
in_period p date = leb p.start date && leb date p.end
