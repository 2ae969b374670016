-- ===== src/Remote/Compression.antt =====
-- The choice of a response coding in src/api.rs. A quality value is only compared, so a finite double is
-- kept as its rank, with 0.0 at 0; `parse_rank` stands for `parse::<f64>` and the test that it is finite.
pub mod Choice
mod Tests
use mlai_trade.Common.{
  ℕ, zero, suc, ◌<◌, ◌≤◌, ◌≡◌, min, max, Bool, true, false, not, ◌&&◌, ◌||◌, Option, none, some,
  List, [], ◌∷◌, if◌then◌else◌, leb, ltb, ◌==◌,
}
use mlai_trade.Common.Int.{ℤ, pos_part}
use mlai_trade.Remote.Text.{same_text, split, before_first, behind_first, trim, to_ascii_lowercase}

pub data ResponseCompression : Type 0 where
  zstd br gzip deflate : ResponseCompression

abbrev pub content_encoding : ResponseCompression → List ℕ
content_encoding zstd = 122 ∷ 115 ∷ 116 ∷ 100 ∷ []
content_encoding br = 98 ∷ 114 ∷ []
content_encoding gzip = 103 ∷ 122 ∷ 105 ∷ 112 ∷ []
content_encoding deflate = 100 ∷ 101 ∷ 102 ∷ 108 ∷ 97 ∷ 116 ∷ 101 ∷ []

abbrev pub priority : ResponseCompression → ℕ
priority zstd = 0
priority br = 1
priority gzip = 2
priority deflate = 3

-- The codings of a header with the ranks of their qualities.
pub record Quality : Type 0 where
  pub name : List ℕ
  pub q : ℕ

unfoldable pub quality_of : List Quality → List ℕ → Option ℕ
quality_of [] name = none
quality_of (entry ∷ entries) name =
    let rest = quality_of entries name in if same_text entry.name name then some entry.q else rest

-- `entry(name).and_modify(max).or_insert(q)`
unfoldable pub add_quality : List ℕ → ℕ → List Quality → List Quality
add_quality name q [] = record { name = name; q = q } ∷ []
add_quality name q (entry ∷ entries) =
    let rest = add_quality name q entries in
    if same_text entry.name name
    then record { name = entry.name; q = max entry.q q } ∷ entries
    else entry ∷ rest

abbrev or_quality : Option ℕ → Option ℕ → ℕ
or_quality (some q) wildcard = q
or_quality none (some q) = q
or_quality none none = 0

-- The quality of a coding: its own, else the wildcard's, else zero.
unfoldable pub encoding_q : List Quality → ResponseCompression → ℕ
unfolding quality_of
encoding_q explicit encoding =
    or_quality (quality_of explicit (content_encoding encoding)) (quality_of explicit (42 ∷ []))

pub record Candidate : Type 0 where
  pub encoding : ResponseCompression
  pub q : ℕ

-- The comparison of `max_by`: a later candidate wins unless the earlier one is greater.
abbrev pub is_greater : Candidate → Candidate → Bool
is_greater left right =
    ltb right.q left.q
    || ((left.q == right.q) && ltb (priority left.encoding) (priority right.encoding))

abbrev pub better : Candidate → Candidate → Candidate
better best next = if is_greater best next then best else next

abbrev pub max_by : Candidate → List Candidate → Candidate
max_by best [] = best
max_by best (next ∷ candidates) = max_by (better best next) candidates

abbrev pub first_max : List Candidate → Option ResponseCompression
first_max [] = none
first_max (best ∷ candidates) = some (max_by best candidates).encoding

-- The codings in the order of the source, those with a quality above zero.
abbrev pub candidates : (ResponseCompression → ℕ) → List ResponseCompression → List Candidate
candidates q [] = []
candidates q (encoding ∷ encodings) =
    let rest = candidates q encodings in
    if ltb 0 (q encoding) then record { encoding = encoding; q = q encoding } ∷ rest else rest

unfoldable pub strongest : (ResponseCompression → ℕ) → Option ResponseCompression
strongest q = first_max (candidates q (zstd ∷ br ∷ gzip ∷ deflate ∷ []))

-- `one` is the rank of 1.0.
module _ (parse_rank : List ℕ → Option ℤ) (one : ℕ) where
  abbrev clamped : Option ℤ → ℕ
  clamped none = 0
  clamped (some rank) = min (pos_part rank) one

  abbrev q_parameter : List ℕ → Option (List ℕ) → Option ℕ
  q_parameter name none = none
  q_parameter name (some value) =
      if same_text (to_ascii_lowercase (trim name)) (113 ∷ [])
      then some (clamped (parse_rank (trim value)))
      else none

  abbrev first_q : Option ℕ → ℕ → ℕ
  first_q none later = later
  first_q (some q) later = q

  -- The parameters behind a coding's name.
  abbrev parameters_q : List (List ℕ) → ℕ
  parameters_q [] = one
  parameters_q (part ∷ parts) =
      first_q (q_parameter (before_first 61 (trim part)) (behind_first 61 (trim part)))
        (parameters_q parts)

  unfoldable pub accept_encoding_q : List (List ℕ) → ℕ
  accept_encoding_q [] = one
  accept_encoding_q (name ∷ parts) = parameters_q parts

  abbrev add_named : List ℕ → ℕ → List Quality → List Quality
  add_named [] q explicit = explicit
  add_named (c ∷ cs) q explicit = add_quality (c ∷ cs) q explicit

  abbrev name_of_parts : List (List ℕ) → List ℕ
  name_of_parts [] = []
  name_of_parts (name ∷ parts) = to_ascii_lowercase (trim name)

  -- The loop over the header's parts.
  unfoldable pub explicit_qualities : List (List ℕ) → List Quality → List Quality
  unfolding accept_encoding_q add_quality
  explicit_qualities [] explicit = explicit
  explicit_qualities (part ∷ parts) explicit =
      explicit_qualities parts
        (add_named (name_of_parts (split 59 part)) (accept_encoding_q (split 59 part)) explicit)

  unfoldable pub accepted_response_compression : Option (List ℕ) → Option ResponseCompression
  unfolding strongest explicit_qualities encoding_q
  accepted_response_compression none = none
  accepted_response_compression (some value) =
      strongest (encoding_q (explicit_qualities (split 44 value) []))
