-- ===== src/Remote/Compression/Choice.antt =====
-- The response coding of src/api.rs is the best that the client accepts.
use mlai_trade.Common.{
  ℕ, ◌<◌, ◌≤◌, ◌≡◌, refl, ◌⊎◌, inl, inr, Option, none, some, List, [], ◌∷◌, arith, ltb, Bool-cases,
  All,
}
use mlai_trade.Common.Int.{ℤ}
use mlai_trade.Remote.Text.{split}
use mlai_trade.Remote.Compression.{
  ResponseCompression, zstd, br, gzip, deflate, priority, Candidate, is_greater, better, max_by,
  first_max, candidates, strongest, encoding_q, explicit_qualities, accepted_response_compression,
}

-- No other coding has a higher quality, and one of the same quality stands behind it.
pub record IsBest (q : ResponseCompression → ℕ) (encoding : ResponseCompression) : Type 0 where
  pub accepted : 0 < q encoding
  pub best :
      (other : ResponseCompression)
      → (q other < q encoding) ⊎ ((q other ≡ q encoding) × (priority encoding ≤ priority other))

-- What a choice among the codings must be.
abbrev pub IsChoice : (ResponseCompression → ℕ) → Option ResponseCompression → Type 0
IsChoice q none = (encoding : ResponseCompression) → q encoding ≡ 0
IsChoice q (some encoding) = IsBest q encoding

abbrev Beats : Candidate → Candidate → Type 0
Beats a b = (b.q < a.q) ⊎ ((b.q ≡ a.q) × (priority a.encoding ≤ priority b.encoding))

Beats-trans : (a b c : Candidate) → Beats a b → Beats b c → Beats a c
Beats-trans a b c h k = omega arith

better-Beats : (a b : Candidate) → Beats (better a b) a × Beats (better a b) b
better-Beats a b = elim (Bool-cases (is_greater a b)) [
  | inl greater ↦ rw greater (omega arith, ground (arith, greater))
  | inr other ↦ rw other (ground (arith, other), omega arith)
]

All-trans :
    (a b : Candidate) (cs : List Candidate) → Beats a b → All (Beats b) cs → All (Beats a) cs
All-trans a b [] h k = tt
All-trans a b (c ∷ cs) h (k, l) = (Beats-trans a b c h k, All-trans a b cs h l)

max_by-Beats :
    (best : Candidate) (cs : List Candidate)
    → Beats (max_by best cs) best × All (Beats (max_by best cs)) cs
max_by-Beats best [] = (omega arith, tt)
max_by-Beats best (c ∷ cs) =
    let (first, rest) = max_by-Beats (better best c) cs in
    let (left, right) = better-Beats best c in
    (
      Beats-trans (max_by (better best c) cs) (better best c) best first left,
      (Beats-trans (max_by (better best c) cs) (better best c) c first right, rest),
    )

module _ (q : ResponseCompression → ℕ) where
  abbrev IsOwn : Candidate → Type 0
  IsOwn c = (0 < c.q) × (c.q ≡ q c.encoding)

  max_by-IsOwn :
      (best : Candidate) (cs : List Candidate) → IsOwn best → All IsOwn cs → IsOwn (max_by best cs)
  max_by-IsOwn best [] h k = h
  max_by-IsOwn best (c ∷ cs) h (k, l) = max_by-IsOwn (better best c) cs own l
    where
      own : IsOwn (better best c)
      own = elim (Bool-cases (is_greater best c)) [
        | inl greater ↦ rw greater h
        | inr other ↦ rw other k
      ]

  candidates-IsOwn : (encodings : List ResponseCompression) → All IsOwn (candidates q encodings)
  candidates-IsOwn [] = tt
  candidates-IsOwn (e ∷ encodings) = elim (Bool-cases (ltb 0 (q e))) [
    | inl accepted ↦ rw accepted ((ground (arith, accepted), refl), candidates-IsOwn encodings)
    | inr refused ↦ rw refused (candidates-IsOwn encodings)
  ]

  abbrev ZeroOr : (Candidate → Type 0) → ResponseCompression → Type 0
  ZeroOr P e = (q e ≡ 0) ⊎ P (record { encoding = e; q = q e })

  -- What holds of every candidate holds of every coding that is one.
  candidates_all :
      (P : Candidate → Type 0) (encodings : List ResponseCompression)
      → All P (candidates q encodings)
      → All (ZeroOr P) encodings
  candidates_all P [] h = tt
  candidates_all P (e ∷ encodings) h = elim (Bool-cases (ltb 0 (q e))) [
    | inl accepted ↦
        let h' = h in
        let (here, rest) = rw accepted at h' in (inr here, candidates_all P encodings rest)
    | inr refused ↦
        let h' = h in (inl (ground (arith, refused)), candidates_all P encodings (rw refused at h'))
  ]

  abbrev all_codings : List ResponseCompression
  all_codings = zstd ∷ br ∷ gzip ∷ deflate ∷ []

  of_all : (P : ResponseCompression → Type 0) → All P all_codings → (e : ResponseCompression) → P e
  of_all P (a, (b, (c, (d, u)))) zstd = a
  of_all P (a, (b, (c, (d, u)))) br = b
  of_all P (a, (b, (c, (d, u)))) gzip = c
  of_all P (a, (b, (c, (d, u)))) deflate = d

  first_max-IsChoice :
      (cs : List Candidate)
      → All IsOwn cs
      → ((P : Candidate → Type 0) → All P cs → All (ZeroOr P) all_codings)
      → IsChoice q (first_max cs)
  first_max-IsChoice [] own all = λ e. elim (of_all (ZeroOr (λ c. ⊥)) (all (λ c. ⊥) tt) e) [
    | inl zero_found ↦ zero_found
    | inr none_found ↦ absurd none_found
  ]
  first_max-IsChoice (best ∷ cs) own all =
      let own_best = max_by-IsOwn best cs own.0 own.1 in
      record {
        accepted = omega (arith, own_best);
        best = λ other.
            elim (of_all (ZeroOr (Beats (max_by best cs)))
              (all (Beats (max_by best cs)) (max_by-Beats best cs)) other) [
                | inl zero_found ↦ inl (omega (arith, own_best))
                | inr beaten ↦ omega (arith, own_best, beaten)
              ];
      }

strongest-IsChoice : (q : ResponseCompression → ℕ) → IsChoice q (strongest q)
unfolding strongest
strongest-IsChoice q =
    first_max-IsChoice q (candidates q (zstd ∷ br ∷ gzip ∷ deflate ∷ []))
      (candidates-IsOwn q (zstd ∷ br ∷ gzip ∷ deflate ∷ []))
      (λ P h. candidates_all q P (zstd ∷ br ∷ gzip ∷ deflate ∷ []) h)

-- The coding chosen for an Accept-Encoding header has the highest quality of all four, above zero, and comes
-- first among those of that quality; without a choice every quality is zero.
accepted_response_compression-IsChoice :
    (parse_rank : List ℕ → Option ℤ) (one : ℕ) (value : List ℕ)
    → IsChoice
        (encoding_q (explicit_qualities parse_rank one (split 44 value) []))
        (accepted_response_compression parse_rank one (some value))
unfolding accepted_response_compression
accepted_response_compression-IsChoice parse_rank one value =
    strongest-IsChoice (encoding_q (explicit_qualities parse_rank one (split 44 value) []))
