-- ===== src/Origin/Overrides.antt =====
-- src/origin.rs: recording and classifying an order.
use mlai_trade.Common.{
  same_flag_refl, ℕ, ◌≡◌, refl, inl, inr, Bool, true, false, Option, none, some, List, Bool-cases,
}
use mlai_trade.Tax.Positions.{ExecutionOrigin, as_str}
use mlai_trade.Remote.Text.{bytes}
use mlai_trade.Remote.Text.Laws.{same_text_refl}
use mlai_trade.Origin.{
  classify_client_order_id, OrderKey, same_key, Overrides, is_blank, record_order_origin,
  classify_order,
}
use mlai_trade.Origin.Laws.{parse-as_str}

same_key_refl : (key : OrderKey) → same_key key key ≡ true
same_key_refl key =
    rw
      (
        same_text_refl key.provider,
        same_text_refl key.account_ref,
        same_flag_refl key.paper_account,
        same_text_refl key.order_id,
      )
      refl

recorded :
    (overrides : Overrides) (key : OrderKey) (origin : ExecutionOrigin)
    → is_blank key.order_id ≡ false
    → record_order_origin overrides key origin key ≡ some (bytes (as_str origin))
unfolding record_order_origin
recorded overrides key origin h = rw (record_order_origin, h, same_key_refl key) refl

other_recorded :
    (overrides : Overrides) (key other : OrderKey) (origin : ExecutionOrigin)
    → same_key key other ≡ false
    → record_order_origin overrides key origin other ≡ overrides other
unfolding record_order_origin
other_recorded overrides key other origin h = elim (Bool-cases (is_blank key.order_id)) [
  | inl blank ↦ rw (record_order_origin, blank) refl
  | inr named ↦ rw (record_order_origin, named, h) refl
]

-- An order with an id whose client id has no known prefix and that is not known as automatic is classified as
-- the origin that was recorded for it last, and the record changes no other order's origin.
pub classify_order-record_order_origin :
    (overrides : Overrides) (has_auto_trade : OrderKey → Bool) (key other : OrderKey)
    (origin : ExecutionOrigin) (client client' : Option (List ℕ)) (known : Bool)
    → is_blank key.order_id ≡ false
    → classify_client_order_id client ≡ none
    → same_key key other ≡ false
    → (classify_order (record_order_origin overrides key origin) has_auto_trade key client false
        ≡ origin)
      × (classify_order
            (record_order_origin overrides key origin)
            has_auto_trade
            other
            client'
            known
          ≡ classify_order overrides has_auto_trade other client' known)
unfolding classify_order
classify_order-record_order_origin overrides has_auto_trade key other origin client client' known h
      k l =
    (
      rw (classify_order, k, h, recorded overrides key origin h) (parse-as_str origin),
      rw (classify_order, other_recorded overrides key other origin l) refl,
    )
