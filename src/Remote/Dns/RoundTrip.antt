-- ===== src/Remote/Dns/RoundTrip.antt =====
-- src/api.rs: what `parse_dns_name` reads of a name that `encode_dns_name` wrote.
use mlai_trade.Common.{
  ℕ, zero, suc, ◌+◌, ◌≤◌, ◌<◌, ◌≡◌, refl, sym, inl, inr, true, false, some, List, [], ◌∷◌, ◌++◌,
  arith, ◌==◌, ltb, leb, Bool-cases, length, length-append, append_assoc, append_nil, get_elem?,
  get_elem?-append, drop, take, take-append, All, if◌then◌else◌,
}
use mlai_trade.Remote.Dns.{
  split_dots, Parsed, ok, failed, loop_detected, invalid_label, is_bad_label, encode_labels,
  encode_dns_name, name_of, Name, parse_loop, parse_dns_name,
}
use mlai_trade.Remote.Dns.Bytes.{label_bits, join_dots-split_dots, split_dots-some}

drop_behind :
    (before rest : List ℕ) (x : ℕ) → drop (length before + 1) (before ++ (x ∷ rest)) ≡ rest
drop_behind before rest x =
    let next : length before + 1 ≡ suc (length before) = omega arith in rw next (drop_suc before)
  where
    drop_suc : (xs : List ℕ) → drop (suc (length xs)) (xs ++ (x ∷ rest)) ≡ rest
    drop_suc [] = refl
    drop_suc (y ∷ ys) = drop_suc ys

encode_cons :
    (label : List ℕ) (labels : List (List ℕ)) (bytes : List ℕ)
    → encode_labels (label ∷ labels) ≡ ok bytes
    → (is_bad_label label ≡ false)
      × ((tail : List ℕ) × (encode_labels labels ≡ ok tail)
          × (bytes ≡ (length label ∷ label) ++ tail))
unfolding encode_labels
encode_cons label labels bytes e = elim (Bool-cases (is_bad_label label)) [
  | inl bad ↦ absurd (let e' = rw bad at e in cc)
  | inr good ↦
      elim (encode_labels labels)
          as (λ o.
            (if is_bad_label label
                then failed invalid_label
                else elim o [ failed x ↦ failed x | ok tail ↦ ok ((length label ∷ label) ++ tail) ])
              ≡ ok bytes
            → (is_bad_label label ≡ false)
              × ((tail : List ℕ) × (o ≡ ok tail) × (bytes ≡ (length label ∷ label) ++ tail))) [
                | failed x ↦ λ e'. absurd (let e'' = rw good at e' in cc)
                | ok tail ↦ λ e'. (good, (tail, refl, (let e'' = rw good at e' in cc)))
              ]
        e
]

module _ (lossy : List ℕ → List ℕ) where
  -- The label's length and bytes stand at the position.
  parse_label :
      (rounds next : ℕ) (labels : List (List ℕ)) (before label rest : List ℕ)
      → 0 < length label
      → length label ≤ 63
      → let buf = before ++ ((length label ∷ label) ++ rest) in
        parse_loop lossy buf (suc rounds) labels (length before) next false
        ≡ parse_loop lossy buf rounds
            (labels ++ (lossy label ∷ []))
            (length before + 1 + length label)
            next
            false
  unfolding parse_loop
  parse_label rounds next labels before label rest some_bytes short =
      let buf = before ++ ((length label ∷ label) ++ rest) in
      let here : get_elem? buf (length before) ≡ some (length label) =
        get_elem?-append before (label ++ rest) (length label) in
      let (no_bits, no_pointer) = label_bits (length label) short in
      let not_end : (length label == 0) ≡ false = ground arith in
      let fits : ltb (length buf) (length before + 1 + length label) ≡ false =
        ground (
          arith,
          length-append before ((length label ∷ label) ++ rest),
          length-append label rest,
        ) in
      let bytes : take (length label) (drop (length before + 1) buf) ≡ label =
        rw (drop_behind before (label ++ rest) (length label)) (take-append label rest) in
      rw (parse_loop, here, no_pointer, not_end, no_bits, fits, bytes) refl

  parse_end :
      (rounds next : ℕ) (labels : List (List ℕ)) (before rest : List ℕ)
      → parse_loop lossy (before ++ (0 ∷ rest)) (suc rounds) labels (length before) next false
        ≡ ok (record { name = name_of labels; next = length before + 1 })
  unfolding parse_loop
  parse_end rounds next labels before rest = rw (parse_loop, get_elem?-append before rest 0) refl

  -- What the loop gives on labels that were encoded: the rounds suffice for all but the last of them.
  abbrev read_name : ℕ → List (List ℕ) → ℕ → List (List ℕ) → Parsed Name
  read_name rounds found next labels =
      if leb rounds (length labels)
      then failed loop_detected
      else ok (record { name = name_of (found ++ labels); next = next })

  parse_labels :
      (labels found : List (List ℕ)) (rounds next : ℕ) (before bytes rest : List ℕ)
      → encode_labels labels ≡ ok bytes
      → All (λ label. lossy label ≡ label) labels
      → parse_loop lossy (before ++ (bytes ++ rest)) rounds found (length before) next false
        ≡ read_name rounds found (length before + length bytes) labels
  unfolding encode_labels parse_loop
  parse_labels [] found zero next before bytes rest e l = refl
  parse_labels [] found (suc rounds) next before bytes rest e l =
      let none_left : leb (suc rounds) 0 ≡ false = ground arith in
      let end : bytes ≡ 0 ∷ [] = cc in
      rw (end, none_left, append_nil found) (parse_end rounds next found before rest)
  parse_labels (label ∷ labels) found zero next before bytes rest e l =
      let first : leb 0 (suc (length labels)) ≡ true = ground arith in rw first refl
  parse_labels (label ∷ labels) found (suc rounds) next before bytes rest e (same, l) =
      let (good, (tail, encoded, split)) = encode_cons label labels bytes e in
      let start = before ++ (length label ∷ label) in
      let start_length : length before + 1 + length label ≡ length start =
        omega (arith, length-append before (length label ∷ label)) in
      let once =
        parse_label rounds next found before label (tail ++ rest) (ground arith) (ground arith) in
      let buffer : before ++ (bytes ++ rest)
          ≡ before ++ ((length label ∷ label) ++ (tail ++ rest)) =
        rw (split, append_assoc (length label ∷ label) tail rest) refl in
      let shifted : start ++ (tail ++ rest) ≡ before ++ ((length label ∷ label) ++ (tail ++ rest)) =
        append_assoc before (length label ∷ label) (tail ++ rest) in
      let more =
        parse_labels labels (found ++ (label ∷ [])) rounds next start tail rest encoded l in
      let one_more : leb (suc rounds) (suc (length labels)) ≡ leb rounds (length labels) =
        ground arith in
      let all_bytes : length start + length tail ≡ length before + length bytes =
        rw split
          (omega (arith, length-append before (length label ∷ label), length-append label tail)) in
      rw
        (
          buffer,
          once,
          same,
          start_length,
          sym shifted,
          more,
          one_more,
          all_bytes,
          append_assoc found (label ∷ []) labels,
        )
        refl

-- A name written by `encode_dns_name`, with any bytes before and behind it, is read back with the
-- offset behind it if it has at most 31 labels, and refused as a compression loop if it has more; the
-- labels' bytes are ones that `from_utf8_lossy` keeps.
pub parse_dns_name-encode_dns_name :
    (lossy : List ℕ → List ℕ) (domain before bytes rest : List ℕ)
    → encode_dns_name domain ≡ ok bytes
    → All (λ label. lossy label ≡ label) (split_dots domain)
    → parse_dns_name lossy (before ++ (bytes ++ rest)) (length before) ≡ (
        if leb 32 (length (split_dots domain))
        then failed loop_detected
        else ok (record { name = domain; next = length before + length bytes }))
unfolding parse_dns_name encode_dns_name
parse_dns_name-encode_dns_name lossy [] before bytes rest e l = absurd cc
parse_dns_name-encode_dns_name lossy (c ∷ cs) before bytes rest e l =
    let (label, labels, split) = split_dots-some (c ∷ cs) in
    let named : name_of (split_dots (c ∷ cs)) ≡ c ∷ cs =
      (let joined = join_dots-split_dots (c ∷ cs) in rw split (rw split at joined)) in
    rw (parse_labels lossy (split_dots (c ∷ cs)) [] 32 (length before) before bytes rest e l, named)
      refl
