-- ===== src/Remote/Address.antt =====
-- Trusted proxies and forwarded client addresses of src/api.rs. `parse_ip` stands for `parse::<IpAddr>`;
-- a client address is kept as the address whose text the log shows. Shifts wrap as in the release profile.
pub mod Networks
pub mod Clients
mod Tests
use Prim.Native.Nat.{bit_and}
use mlai_trade.Common.{
  ℕ, zero, suc, ◌+◌, ◌-◌, ◌*◌, ◌/◌, ◌%◌, ◌^◌, ◌<◌, ◌≤◌, ◌≡◌, Bool, true, false, not, ◌&&◌, ◌||◌,
  Option, none, some, List, [], ◌∷◌, if◌then◌else◌, leb, ltb, ◌==◌, any,
}
use mlai_trade.Remote.Text.{
  same_text, split, before_first, behind_first, trim, to_ascii_lowercase, parse_unsigned,
}

-- `u32::from` and `u128::from` of an address.
pub data IpAddr : Type 0 where
  v4 v6 : ℕ → IpAddr

abbrev pub ip_prefix_bits : IpAddr → ℕ
ip_prefix_bits (v4 a) = 32
ip_prefix_bits (v6 a) = 128

-- `to_ipv4_mapped`: the addresses ::ffff:a.b.c.d.
abbrev pub normalize_proxy_peer_ip : IpAddr → IpAddr
normalize_proxy_peer_ip (v4 a) = v4 a
normalize_proxy_peer_ip (v6 a) = if a / 2 ^ 32 == 0xffff then v4 (a % 2 ^ 32) else v6 a

-- `MAX << (width - prefix)`, where the subtraction wraps at 32 bits and the shift at the width.
abbrev pub prefix_mask : ℕ → ℕ → ℕ
prefix_mask width prefix =
    if prefix == 0
    then 0
    else (2 ^ width - 1) * 2 ^ ((2 ^ 32 + width - prefix) % 2 ^ 32 % width) % 2 ^ width

abbrev pub same_network : ℕ → ℕ → ℕ → ℕ → Bool
same_network width ip network prefix =
    bit_and ip (prefix_mask width prefix) == bit_and network (prefix_mask width prefix)

unfoldable pub match_addresses : IpAddr → IpAddr → ℕ → Bool
match_addresses (v4 ip) (v4 network) prefix = same_network 32 ip network prefix
match_addresses (v6 ip) (v6 network) prefix = same_network 128 ip network prefix
match_addresses (v4 ip) (v6 network) prefix = false
match_addresses (v6 ip) (v4 network) prefix = false

unfoldable pub ip_in_cidr : IpAddr → IpAddr → ℕ → Bool
unfolding match_addresses
ip_in_cidr ip network prefix =
    match_addresses (normalize_proxy_peer_ip ip) (normalize_proxy_peer_ip network) prefix

pub record Cidr : Type 0 where
  pub network : IpAddr
  pub prefix : ℕ

-- The settings of `ApiSslRuntimeConfig` that say whose headers count.
pub record ProxyConfig : Type 0 where
  pub trusted_proxy_enabled : Bool
  pub trusted_proxy_cidrs : List (List ℕ)

abbrev with_prefix : IpAddr → Option ℕ → Option Cidr
with_prefix ip none = none
with_prefix ip (some prefix) =
    if leb prefix (ip_prefix_bits ip) then some (record { network = ip; prefix = prefix }) else none

-- A missing prefix is the whole address.
abbrev prefix_of : IpAddr → Option (List ℕ) → Option ℕ
prefix_of ip none = some (ip_prefix_bits ip)
prefix_of ip (some digits) = parse_unsigned 256 digits

abbrev cidr_of : Option IpAddr → Option (List ℕ) → Option Cidr
cidr_of none prefix = none
cidr_of (some ip) prefix = with_prefix ip (prefix_of ip prefix)

-- `trim_matches(c)`
abbrev drop_char : ℕ → List ℕ → List ℕ
drop_char c [] = []
drop_char c (d ∷ ds) = let rest = drop_char c ds in if d == c then rest else d ∷ ds

abbrev keep_unless_char : ℕ → ℕ → List ℕ → List ℕ
keep_unless_char c d [] = if d == c then [] else d ∷ []
keep_unless_char c d (e ∷ es) = d ∷ e ∷ es

abbrev drop_char_end : ℕ → List ℕ → List ℕ
drop_char_end c [] = []
drop_char_end c (d ∷ ds) = keep_unless_char c d (drop_char_end c ds)

abbrev trim_matches : ℕ → List ℕ → List ℕ
trim_matches c ds = drop_char_end c (drop_char c ds)

-- A header's name and value.
pub record Header : Type 0 where
  pub name : List ℕ
  pub value : List ℕ

unfoldable pub parsed_header_value : List Header → List ℕ → Option (List ℕ)
parsed_header_value [] name = none
parsed_header_value (h ∷ headers) name =
    let rest = parsed_header_value headers name in
    if same_text (to_ascii_lowercase h.name) (to_ascii_lowercase name) then some h.value else rest

-- cf-connecting-ip, true-client-ip, x-forwarded-for and x-real-ip.
abbrev cf_connecting_ip : List ℕ
cf_connecting_ip =
    99 ∷ 102 ∷ 45 ∷ 99 ∷ 111 ∷ 110 ∷ 110 ∷ 101 ∷ 99 ∷ 116 ∷ 105 ∷ 110 ∷ 103 ∷ 45 ∷ 105 ∷ 112 ∷ []

abbrev true_client_ip : List ℕ
true_client_ip = 116 ∷ 114 ∷ 117 ∷ 101 ∷ 45 ∷ 99 ∷ 108 ∷ 105 ∷ 101 ∷ 110 ∷ 116 ∷ 45 ∷ 105 ∷ 112 ∷ []

abbrev x_forwarded_for : List ℕ
x_forwarded_for =
    120 ∷ 45 ∷ 102 ∷ 111 ∷ 114 ∷ 119 ∷ 97 ∷ 114 ∷ 100 ∷ 101 ∷ 100 ∷ 45 ∷ 102 ∷ 111 ∷ 114 ∷ []

abbrev x_real_ip : List ℕ
x_real_ip = 120 ∷ 45 ∷ 114 ∷ 101 ∷ 97 ∷ 108 ∷ 45 ∷ 105 ∷ 112 ∷ []

pub data Source : Type 0 where
  cloudflare trusted_proxy socket_source_ip : Source

-- The fields of `ForwardedClientLogFields` but the ray.
pub record ClientFields : Type 0 where
  pub client_ip : IpAddr
  pub client_ip_source : Source
  pub forwarded_headers_trusted : Bool

module _ (parse_ip : List ℕ → Option IpAddr) where
  abbrev some_cidr : List ℕ → Option Cidr
  some_cidr [] = none
  some_cidr (c ∷ cs) = cidr_of (parse_ip (before_first 47 (c ∷ cs))) (behind_first 47 (c ∷ cs))

  unfoldable pub parse_trusted_proxy_cidr : List ℕ → Option Cidr
  parse_trusted_proxy_cidr value = some_cidr (trim value)

  abbrev pub in_cidr : IpAddr → Option Cidr → Bool
  in_cidr ip none = false
  in_cidr ip (some cidr) = ip_in_cidr ip cidr.network cidr.prefix

  unfoldable pub trusted_forwarding_peer : ProxyConfig → IpAddr → Bool
  unfolding parse_trusted_proxy_cidr ip_in_cidr
  trusted_forwarding_peer status ip =
      status.trusted_proxy_enabled
      && any (λ (entry : List ℕ). in_cidr ip (parse_trusted_proxy_cidr entry))
          status.trusted_proxy_cidrs

  abbrev first_some : Option IpAddr → Option IpAddr → Option IpAddr
  first_some none later = later
  first_some (some ip) later = some ip

  abbrev first_parsed : List (List ℕ) → Option IpAddr
  first_parsed [] = none
  first_parsed (part ∷ parts) =
      first_some (parse_ip (trim_matches 93 (trim_matches 91 (trim_matches 34 (trim part)))))
        (first_parsed parts)

  unfoldable pub first_forwarded_ip : List ℕ → Option IpAddr
  first_forwarded_ip value = first_parsed (split 44 value)

  abbrev header_ip : Option (List ℕ) → Option IpAddr
  header_ip none = none
  header_ip (some value) = first_forwarded_ip value

  abbrev choose : Bool → Source → Option IpAddr → ClientFields → ClientFields
  choose trusted source none later = later
  choose trusted source (some ip) later = record {
    client_ip = normalize_proxy_peer_ip ip;
    client_ip_source = source;
    forwarded_headers_trusted = trusted;
  }

  abbrev from_socket : Bool → IpAddr → ClientFields
  from_socket trusted source_ip = record {
    client_ip = normalize_proxy_peer_ip source_ip;
    client_ip_source = socket_source_ip;
    forwarded_headers_trusted = trusted;
  }

  -- The headers in the order in which they count; `lookup` finds a header's value.
  unfoldable pub forwarded_fields : (List ℕ → Option (List ℕ)) → Bool → IpAddr → ClientFields
  unfolding first_forwarded_ip
  forwarded_fields lookup false source_ip = from_socket false source_ip
  forwarded_fields lookup true source_ip =
      choose true cloudflare (header_ip (lookup cf_connecting_ip)) (
        choose true trusted_proxy (header_ip (lookup true_client_ip)) (
          choose true trusted_proxy (header_ip (lookup x_forwarded_for)) (
            choose true trusted_proxy (header_ip (lookup x_real_ip)) (from_socket true source_ip))))

  unfoldable pub forwarded_client_fields_from_pairs :
      ProxyConfig → List Header → IpAddr → ClientFields
  unfolding forwarded_fields trusted_forwarding_peer parsed_header_value
  forwarded_client_fields_from_pairs status headers source_ip =
      forwarded_fields (parsed_header_value headers) (trusted_forwarding_peer status source_ip)
        source_ip

  -- `lookup` is the header map of the http crate, for a value that is text.
  unfoldable pub forwarded_client_fields_from_header_map :
      ProxyConfig → (List ℕ → Option (List ℕ)) → IpAddr → ClientFields
  unfolding forwarded_fields trusted_forwarding_peer
  forwarded_client_fields_from_header_map status lookup source_ip =
      forwarded_fields lookup (trusted_forwarding_peer status source_ip) source_ip
