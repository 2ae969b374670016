-- ===== src/Origin/Tests.antt =====
-- One recorded order beside another one.
use mlai_trade.Common.{ℕ, Bool, ◌≡◌, refl, true, false, none, some, [], ◌∷◌}
use mlai_trade.Tax.Positions.{mlai_auto, mlai_cli, mixed, unknown}
use mlai_trade.Remote.Text.{bytes}
use mlai_trade.Origin.{
  parse, combine, OrderKey, record_order_origin, classify_client_order_id, classify_order,
}
use mlai_trade.Origin.Overrides.{classify_order-record_order_origin}

parsed : parse (bytes " MLAI-Auto ") ≡ mlai_auto
unfolding parse
parsed = refl

not_parsed : parse (bytes "broker") ≡ unknown
unfolding parse
not_parsed = refl

prefixed : classify_client_order_id (some (bytes "PLM-7")) ≡ some mlai_cli
unfolding classify_client_order_id
prefixed = refl

combined : combine mlai_auto mlai_cli ≡ mixed
unfolding combine
combined = refl

abbrev key : ℕ → OrderKey
key id = record {
  provider = bytes "alpaca";
  account_ref = bytes "paper";
  paper_account = true;
  order_id = id ∷ [];
}

abbrev never : OrderKey → Bool
never k = false

classify_order-record_order_origin_example :
    (classify_order
        (record_order_origin (λ (k : OrderKey). none) (key 65) mlai_cli)
        never
        (key 65)
        (some (bytes "web-1"))
        false
      ≡ mlai_cli)
    × (classify_order
          (record_order_origin (λ (k : OrderKey). none) (key 65) mlai_cli)
          never
          (key 66)
          none
          false
        ≡ classify_order (λ (k : OrderKey). none) never (key 66) none false)
unfolding classify_client_order_id
classify_order-record_order_origin_example =
    classify_order-record_order_origin (λ (k : OrderKey). none) never (key 65) (key 66) mlai_cli
      (some (bytes "web-1")) none false refl refl refl
