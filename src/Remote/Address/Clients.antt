-- ===== src/Remote/Address/Clients.antt =====
-- Whose headers count in src/api.rs: the client address of a request.
use mlai_trade.Common.{
  ℕ, ◌≡◌, refl, ◌⊎◌, inl, inr, true, Option, none, some, List, [], ◌∷◌, arith, Bool-cases, any, Any,
}
use mlai_trade.Remote.Address.{
  IpAddr, normalize_proxy_peer_ip, ip_in_cidr, Cidr, ProxyConfig, parse_trusted_proxy_cidr, in_cidr,
  trusted_forwarding_peer, Header, socket_source_ip, forwarded_fields,
  forwarded_client_fields_from_pairs,
}

module _ (parse_ip : List ℕ → Option IpAddr) where
  -- The peer lies in a network of the list, and the list is in use.
  abbrev pub IsTrustedPeer : ProxyConfig → IpAddr → Type 0
  IsTrustedPeer status ip =
      (status.trusted_proxy_enabled ≡ true)
      × Any
          (λ (entry : List ℕ).
            (cidr : Cidr) × (parse_trusted_proxy_cidr parse_ip entry ≡ some cidr)
            × (ip_in_cidr ip cidr.network cidr.prefix ≡ true))
          status.trusted_proxy_cidrs

  entry_network :
      (ip : IpAddr) (o : Option Cidr)
      → in_cidr parse_ip ip o ≡ true
      → (cidr : Cidr) × (o ≡ some cidr) × (ip_in_cidr ip cidr.network cidr.prefix ≡ true)
  entry_network ip none h = ground (arith, h)
  entry_network ip (some cidr) h = (cidr, refl, h)

  some_entry :
      (ip : IpAddr) (entries : List (List ℕ))
      → any
          (λ (entry : List ℕ). in_cidr parse_ip ip (parse_trusted_proxy_cidr parse_ip entry))
          entries
        ≡ true
      → Any
          (λ (entry : List ℕ).
            (cidr : Cidr) × (parse_trusted_proxy_cidr parse_ip entry ≡ some cidr)
            × (ip_in_cidr ip cidr.network cidr.prefix ≡ true))
          entries
  some_entry ip [] h = ground (arith, h)
  some_entry ip (entry ∷ entries) h =
      elim (Bool-cases (in_cidr parse_ip ip (parse_trusted_proxy_cidr parse_ip entry))) [
        | inl here ↦ inl (entry_network ip (parse_trusted_proxy_cidr parse_ip entry) here)
        | inr other ↦ let h' = h in inr (some_entry ip entries (rw other at h'))
      ]

  trusted-IsTrustedPeer :
      (status : ProxyConfig) (ip : IpAddr)
      → trusted_forwarding_peer parse_ip status ip ≡ true
      → IsTrustedPeer status ip
  unfolding trusted_forwarding_peer
  trusted-IsTrustedPeer status ip h =
      (ground (arith, h), some_entry ip status.trusted_proxy_cidrs (ground (arith, h)))

  -- Whatever the headers say, the client of a request is the peer of its socket, unless the trusted proxies
  -- are in use and one of their networks holds the peer.
  pub client_ip_peer :
      (status : ProxyConfig) (headers : List Header) (source_ip : IpAddr)
      → (((forwarded_client_fields_from_pairs parse_ip status headers source_ip).client_ip
            ≡ normalize_proxy_peer_ip source_ip)
          × ((forwarded_client_fields_from_pairs parse_ip status headers source_ip).client_ip_source
              ≡ socket_source_ip))
        ⊎ IsTrustedPeer status source_ip
  unfolding forwarded_client_fields_from_pairs forwarded_fields
  client_ip_peer status headers source_ip =
      elim (Bool-cases (trusted_forwarding_peer parse_ip status source_ip)) [
        | inl trusted ↦ inr (trusted-IsTrustedPeer status source_ip trusted)
        | inr other ↦ inl (rw other (refl, refl))
      ]
