-- ===== src/Remote/Compression/Tests.antt =====
-- Response codings for concrete headers, with digits for quality values and 9 for 1.0.
use mlai_trade.Common.{ℕ, ◌-◌, ◌≡◌, refl, Option, some, none, List, [], ◌∷◌}
use mlai_trade.Common.Int.{ℤ, pos}
use mlai_trade.Remote.Compression.{ResponseCompression, accepted_response_compression}

abbrev digit : List ℕ → Option ℤ
digit [] = none
digit (c ∷ cs) = some (pos (c - 48))

-- br;q=3, *;q=2
abbrev header : List ℕ
header = 98 ∷ 114 ∷ 59 ∷ 113 ∷ 61 ∷ 51 ∷ 44 ∷ 32 ∷ 42 ∷ 59 ∷ 113 ∷ 61 ∷ 50 ∷ []

brotli : accepted_response_compression digit 9 (some header) ≡ some ResponseCompression.br
unfolding accepted_response_compression
brotli = refl
