-- ===== src/Remote/Address/Tests.antt =====
-- Addresses with a toy reader of addresses: the bytes are the digits of the number.
use mlai_trade.Common.{ℕ, ◌+◌, ◌*◌, ◌≡◌, refl, ◌⊎◌, true, false, Option, some, List, [], ◌∷◌}
use mlai_trade.Remote.Address.{
  IpAddr, v4, v6, ip_in_cidr, ProxyConfig, Header, socket_source_ip,
  forwarded_client_fields_from_pairs,
}
use mlai_trade.Remote.Address.Clients.{IsTrustedPeer, client_ip_peer}

abbrev number : ℕ → List ℕ → ℕ
number value [] = value
number value (c ∷ cs) = number (value * 256 + c) cs

abbrev toy_parse : List ℕ → Option IpAddr
toy_parse bytes = some (v4 (number 0 bytes))

-- 10.1.2.3 in 10.0.0.0/8
abbrev ten : IpAddr
ten = v4 0x0a010203

abbrev tens : IpAddr
tens = v4 0x0a000000

in_tens : ip_in_cidr ten tens 8 ≡ true
unfolding ip_in_cidr
in_tens = refl

-- ::ffff:0:0/96 names every mapped address, and its shift is a whole word.
mapped_all : ip_in_cidr (v6 0xffff0a010203) (v6 0xffff00000000) 96 ≡ false
unfolding ip_in_cidr
mapped_all = refl

mapped_tens : ip_in_cidr (v6 0xffff0a010203) (v6 0xffff0a000000) 104 ≡ true
unfolding ip_in_cidr
mapped_tens = refl

-- The entry is "1", and the header claims another address.
abbrev status : ProxyConfig
status = record { trusted_proxy_enabled = true; trusted_proxy_cidrs = (49 ∷ []) ∷ [] }

abbrev claimed : List Header
claimed =
    record { name = 120 ∷ 45 ∷ 114 ∷ 101 ∷ 97 ∷ 108 ∷ 45 ∷ 105 ∷ 112 ∷ []; value = 57 ∷ [] } ∷ []

client_ip_peer_example :
    (((forwarded_client_fields_from_pairs toy_parse status claimed (v4 50)).client_ip ≡ v4 50)
      × ((forwarded_client_fields_from_pairs toy_parse status claimed (v4 50)).client_ip_source
          ≡ socket_source_ip))
    ⊎ IsTrustedPeer toy_parse status (v4 50)
client_ip_peer_example = client_ip_peer toy_parse status claimed (v4 50)

believed : (forwarded_client_fields_from_pairs toy_parse status claimed (v4 49)).client_ip ≡ v4 57
unfolding forwarded_client_fields_from_pairs
believed = refl
