-- ===== src/Origin.antt =====
-- src/origin.rs: where an order came from. A text is the list of its bytes. The tables are arguments: the
-- overrides are a function of their key, and the clock's column and the command's are left out.
pub mod Laws
pub mod Overrides
mod Tests
use mlai_trade.Common.{
  same_flag, ℕ, Bool, true, false, not, ◌&&◌, ◌||◌, Option, none, some, is_some, List, [], ◌∷◌,
  if◌then◌else◌, any,
}
use mlai_trade.Tax.Positions.{
  ExecutionOrigin, mlai_auto, mlai_cli, provider_external, mixed, unknown, as_str, origin_eq,
}
use mlai_trade.Remote.Text.{bytes, same_text, trim, to_ascii_lowercase, strip_prefix}

-- `match` on several texts.
abbrev pub is_one_of : List ℕ → List (List ℕ) → Bool
is_one_of value texts = any (λ (t : List ℕ). same_text t value) texts

abbrev key_origin : List ℕ → ExecutionOrigin
key_origin key =
    if is_one_of key (bytes "mlai_auto" ∷ bytes "mlai-auto" ∷ bytes "auto" ∷ [])
    then mlai_auto
    else if is_one_of key (bytes "mlai_cli" ∷ bytes "mlai-cli" ∷ bytes "cli" ∷ [])
    then mlai_cli
    else if is_one_of key (bytes "provider_external" ∷ bytes "provider" ∷ bytes "external" ∷ [])
    then provider_external
    else if is_one_of key (bytes "mixed" ∷ [])
    then mixed
    else unknown

unfoldable pub parse : List ℕ → ExecutionOrigin
parse value = key_origin (to_ascii_lowercase (trim value))

abbrev starts_with : List ℕ → List ℕ → Bool
starts_with value prefix = is_some (strip_prefix prefix value)

abbrev prefix_origin : List ℕ → Option ExecutionOrigin
prefix_origin [] = none
prefix_origin (c ∷ cs) =
    if starts_with (c ∷ cs) (bytes "mlai-auto-")
    then some mlai_auto
    else if starts_with (c ∷ cs) (bytes "mlai-cli-") || starts_with (c ∷ cs) (bytes "plm-")
    then some mlai_cli
    else none

unfoldable pub classify_client_order_id : Option (List ℕ) → Option ExecutionOrigin
classify_client_order_id none = none
classify_client_order_id (some value) = prefix_origin (to_ascii_lowercase (trim value))

unfoldable pub combine : ExecutionOrigin → ExecutionOrigin → ExecutionOrigin
combine entry exit =
    if origin_eq entry unknown
    then exit
    else if origin_eq exit unknown
    then entry
    else if origin_eq entry exit
    then entry
    else mixed

-- The primary key of the overrides.
pub record OrderKey : Type 0 where
  pub provider : List ℕ
  pub account_ref : List ℕ
  pub paper_account : Bool
  pub order_id : List ℕ

abbrev pub same_key : OrderKey → OrderKey → Bool
same_key a b =
    same_text a.provider b.provider
    && same_text a.account_ref b.account_ref
    && same_flag a.paper_account b.paper_account
    && same_text a.order_id b.order_id

abbrev pub Overrides : Type 0
Overrides = OrderKey → Option (List ℕ)

abbrev pub is_blank : List ℕ → Bool
is_blank value = same_text (trim value) []

-- `INSERT OR REPLACE`
unfoldable pub record_order_origin : Overrides → OrderKey → ExecutionOrigin → Overrides
record_order_origin overrides key origin =
    if is_blank key.order_id then overrides else λ (k : OrderKey).
    if same_key key k then some (bytes (as_str origin)) else overrides k

abbrev override_or : Option (List ℕ) → Bool → ExecutionOrigin
override_or (some origin) has_auto_trade = parse origin
override_or none has_auto_trade = if has_auto_trade then mlai_auto else provider_external

-- The order id is a part of the key: a missing one and a blank one are the same to the code.
-- `has_auto_trade` says whether the automatic trades have a row of the key.
abbrev without_client : Overrides → (OrderKey → Bool) → OrderKey → Bool → ExecutionOrigin
without_client overrides has_auto_trade key known_auto_order =
    if known_auto_order
    then mlai_auto
    else if is_blank key.order_id
    then provider_external
    else override_or (overrides key) (has_auto_trade key)

abbrev client_or : Option ExecutionOrigin → ExecutionOrigin → ExecutionOrigin
client_or (some origin) other = origin
client_or none other = other

unfoldable pub classify_order :
    Overrides → (OrderKey → Bool) → OrderKey → Option (List ℕ) → Bool → ExecutionOrigin
unfolding classify_client_order_id
classify_order overrides has_auto_trade key client_order_id known_auto_order =
    client_or (classify_client_order_id client_order_id)
      (without_client overrides has_auto_trade key known_auto_order)
