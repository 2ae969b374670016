-- ===== src/Remote/Dns/Tests.antt =====
-- DNS names at concrete inputs.
use mlai_trade.Common.{ℕ, ◌≡◌, refl, List, [], ◌∷◌, ◌++◌, if◌then◌else◌, leb, length, ◌+◌}
use mlai_trade.Remote.Dns.{
  dot, split_dots, ok, failed, loop_detected, invalid_label, encode_dns_name, parse_dns_name,
}
use mlai_trade.Remote.Dns.RoundTrip.{parse_dns_name-encode_dns_name}

-- "ab.c"
abbrev domain : List ℕ
domain = 97 ∷ 98 ∷ dot ∷ 99 ∷ []

abbrev wire : List ℕ
wire = 2 ∷ 97 ∷ 98 ∷ 1 ∷ 99 ∷ 0 ∷ []

encoded : encode_dns_name domain ≡ ok wire
unfolding encode_dns_name
encoded = refl

two_dots : encode_dns_name (97 ∷ dot ∷ dot ∷ 98 ∷ []) ≡ failed invalid_label
unfolding encode_dns_name
two_dots = refl

-- A pointer to the name's second label, and one to itself.
abbrev as_read : List ℕ → List ℕ
as_read label = label

pointer :
    parse_dns_name as_read (wire ++ (0xc0 ∷ 3 ∷ [])) 6 ≡ ok (record { name = 99 ∷ []; next = 8 })
unfolding parse_dns_name
pointer = refl

self_pointer : parse_dns_name as_read (0xc0 ∷ 0 ∷ []) 0 ≡ failed loop_detected
unfolding parse_dns_name
self_pointer = refl

parse_dns_name-encode_dns_name_example :
    parse_dns_name as_read ((7 ∷ []) ++ (wire ++ (8 ∷ []))) 1 ≡ (
      if leb 32 (length (split_dots domain))
      then failed loop_detected
      else ok (record { name = domain; next = 1 + length wire }))
parse_dns_name-encode_dns_name_example =
    parse_dns_name-encode_dns_name as_read domain (7 ∷ []) wire (8 ∷ []) encoded (refl, (refl, tt))
