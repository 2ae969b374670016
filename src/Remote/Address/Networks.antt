-- ===== src/Remote/Address/Networks.antt =====
-- What src/api.rs `ip_in_cidr` decides, in terms of leading digits.
use Prim.Native.Nat.{bit_and}
use mlai_trade.Common.{
  ℕ, ◌-◌, ◌*◌, ◌/◌, ◌^◌, ◌≤◌, ◌<◌, ◌≡◌, refl, sym, subst, ◌↔◌, Bool, true, ◌&&◌, arith, ◌==◌,
  ==_iff, Bool-cases, inl, inr,
}
use mlai_trade.Remote.Bits.{table, table_entry, bit_and-mask_iff}
use mlai_trade.Remote.Address.{
  IpAddr, v4, v6, ip_prefix_bits, normalize_proxy_peer_ip, prefix_mask, same_network,
  match_addresses, ip_in_cidr,
}

abbrev good_mask : ℕ → ℕ → Bool
good_mask width prefix =
    (prefix_mask width prefix == ((2 ^ prefix - 1) * 2 ^ (width - prefix)))
    && ((2 ^ prefix * 2 ^ (width - prefix)) == 2 ^ width)

masks_32 : table (good_mask 32) 33 ≡ true
unfolding table
masks_32 = refl

masks_128 : table (good_mask 128) 129 ≡ true
unfolding table
masks_128 = refl

and_true : (a b : Bool) → a && b ≡ true → (a ≡ true) × (b ≡ true)
and_true a b h = (ground arith, ground arith)

same_network_iff :
    (width prefix ip network : ℕ)
    → good_mask width prefix ≡ true
    → ip < 2 ^ width
    → network < 2 ^ width
    → (same_network width ip network prefix ≡ true)
      ↔ (ip / 2 ^ (width - prefix) ≡ network / 2 ^ (width - prefix))
same_network_iff width prefix ip network good h k =
    let (mask_test, size_test) = and_true _ (2 ^ prefix * 2 ^ (width - prefix) == 2 ^ width) good in
    let mask = (==_iff (prefix_mask width prefix) _).0 mask_test in
    let size = (==_iff (2 ^ prefix * 2 ^ (width - prefix)) _).0 size_test in
    let (forth, back) =
      bit_and-mask_iff prefix (width - prefix) ip network (subst (λ (n : ℕ). ip < n) (sym size) h)
        (subst (λ (n : ℕ). network < n) (sym size) k) in
    (
      λ e. forth (subst (λ (m : ℕ). bit_and ip m ≡ bit_and network m) mask ((==_iff _ _).0 e)),
      λ e. (==_iff _ _).1 (subst (λ (m : ℕ). bit_and ip m ≡ bit_and network m) (sym mask) (back e)),
    )

-- The leading digits of both addresses agree, and both are of one kind.
abbrev pub SameNetwork : ℕ → IpAddr → IpAddr → Type 0
SameNetwork prefix (v4 ip) (v4 network) = ip / 2 ^ (32 - prefix) ≡ network / 2 ^ (32 - prefix)
SameNetwork prefix (v6 ip) (v6 network) = ip / 2 ^ (128 - prefix) ≡ network / 2 ^ (128 - prefix)
SameNetwork prefix (v4 ip) (v6 network) = ⊥
SameNetwork prefix (v6 ip) (v4 network) = ⊥

abbrev pub IsAddress : IpAddr → Type 0
IsAddress (v4 ip) = ip < 2 ^ 32
IsAddress (v6 ip) = ip < 2 ^ 128

match_addresses_iff :
    (ip network : IpAddr) (prefix : ℕ)
    → IsAddress ip
    → IsAddress network
    → prefix ≤ ip_prefix_bits network
    → (match_addresses ip network prefix ≡ true) ↔ SameNetwork prefix ip network
unfolding match_addresses
match_addresses_iff (v4 ip) (v4 network) prefix h k p =
    same_network_iff 32 prefix ip network
      (table_entry (good_mask 32) 33 prefix (omega arith) masks_32) h k
match_addresses_iff (v6 ip) (v6 network) prefix h k p =
    same_network_iff 128 prefix ip network
      (table_entry (good_mask 128) 129 prefix (omega arith) masks_128) h k
match_addresses_iff (v4 ip) (v6 network) prefix h k p = ground arith
match_addresses_iff (v6 ip) (v4 network) prefix h k p = ground arith

normalize-IsAddress : (ip : IpAddr) → IsAddress ip → IsAddress (normalize_proxy_peer_ip ip)
normalize-IsAddress (v4 ip) h = h
normalize-IsAddress (v6 ip) h = elim (Bool-cases (ip / 2 ^ 32 == 0xffff)) [
  | inl mapped ↦ rw mapped (omega arith)
  | inr other ↦ rw other h
]

-- For addresses of 32 and 128 bits and a prefix that is no longer than the network's own address, an
-- address is in the network exactly when both are of one kind and agree in the digits of the prefix, where
-- an IPv4 address that is mapped into IPv6 counts as the IPv4 address.
ip_in_cidr_iff :
    (ip network : IpAddr) (prefix : ℕ)
    → IsAddress ip
    → IsAddress network
    → prefix ≤ ip_prefix_bits (normalize_proxy_peer_ip network)
    → (ip_in_cidr ip network prefix ≡ true)
      ↔ SameNetwork prefix (normalize_proxy_peer_ip ip) (normalize_proxy_peer_ip network)
unfolding ip_in_cidr
ip_in_cidr_iff ip network prefix h k p =
    match_addresses_iff (normalize_proxy_peer_ip ip) (normalize_proxy_peer_ip network) prefix
      (normalize-IsAddress ip h) (normalize-IsAddress network k) p
