-- ===== src/Remote/Text/Laws.antt =====
-- Facts about the text functions of src/api.rs: equality, splitting and decimal numbers.
use mlai_trade.Common.{
  ◌≢◌, ℕ, zero, suc, ◌+◌, ◌-◌, ◌*◌, ◌/◌, ◌%◌, ◌<◌, ◌≡◌, refl, ap, ◌∙◌, ◌↔◌, inl, inr, true, false,
  ◌&&◌, some, List, [], ◌∷◌, ◌++◌, arith, ltb, ◌==◌, Bool-cases, All,
}
use mlai_trade.Remote.Text.{
  same_text, split, digits_of, decimal, is_digit, parse_digits, parse_unsigned,
}

pub same_text_iff : (cs ds : List ℕ) → (same_text cs ds ≡ true) ↔ (cs ≡ ds)
same_text_iff [] [] = (λ h. refl, λ h. refl)
same_text_iff [] (d ∷ ds) = ground arith
same_text_iff (c ∷ cs) [] = ground arith
same_text_iff (c ∷ cs) (d ∷ ds) = grind (arith, same_text_iff cs ds)

pub same_text_refl : (cs : List ℕ) → same_text cs cs ≡ true
same_text_refl cs = (same_text_iff cs cs).1 refl

-- No byte is the separator.
abbrev pub Without : ℕ → List ℕ → Type 0
Without separator cs = All (λ c. (c == separator) ≡ false) cs

pub split-Without :
    (separator : ℕ) (cs : List ℕ) → Without separator cs → split separator cs ≡ cs ∷ []
split-Without separator [] h = refl
split-Without separator (c ∷ cs) (p, h) = rw (split, p, split-Without separator cs h) refl

pub split-append :
    (separator : ℕ) (cs rest : List ℕ)
    → Without separator cs
    → split separator (cs ++ (separator ∷ rest)) ≡ cs ∷ split separator rest
split-append separator [] rest h =
    let same : (separator == separator) ≡ true = ground arith in rw (split, same) refl
split-append separator (c ∷ cs) rest (p, h) = rw (split, p, split-append separator cs rest h) refl

parse_digits-append :
    (limit value front : ℕ) (cs ds : List ℕ)
    → parse_digits limit value cs ≡ some front
    → parse_digits limit value (cs ++ ds) ≡ parse_digits limit front ds
parse_digits-append limit value front [] ds h = let e : value ≡ front = ground arith in rw e refl
parse_digits-append limit value front (c ∷ cs) ds h =
    elim (Bool-cases (is_digit c && ltb (value * 10 + (c - 48)) limit)) [
      | inl digit ↦
          let h' : parse_digits limit (value * 10 + (c - 48)) cs ≡ some front =
            (let h' = h in rw (parse_digits, digit) at h') in
          rw (parse_digits, digit)
            (parse_digits-append limit (value * 10 + (c - 48)) front cs ds h')
      | inr bad ↦
          let h' = h in
          let none_found = rw (parse_digits, bad) at h' in absurd (ground (arith, none_found))
    ]

digits_of-small : (fuel n : ℕ) → ltb n 10 ≡ true → digits_of (suc fuel) n ≡ (48 + n) ∷ []
digits_of-small fuel n h = rw h refl

digits_of-large :
    (fuel n : ℕ)
    → ltb n 10 ≡ false
    → digits_of (suc fuel) n ≡ digits_of fuel (n / 10) ++ ((48 + n % 10) ∷ [])
digits_of-large fuel n h = rw h refl

parse_one :
    (limit value d : ℕ)
    → d < 10
    → value * 10 + d < limit
    → parse_digits limit value ((48 + d) ∷ []) ≡ some (value * 10 + d)
parse_one limit value d h k =
    let test : (is_digit (48 + d) && ltb (value * 10 + (48 + d - 48)) limit) ≡ true =
      ground arith in
    let e : 48 + d - 48 ≡ d = omega arith in rw (parse_digits, test, e) refl

parse_digits-digits_of :
    (limit fuel n : ℕ) → n < fuel → n < limit → parse_digits limit 0 (digits_of fuel n) ≡ some n
parse_digits-digits_of limit zero n h k = absurd (omega arith)
parse_digits-digits_of limit (suc fuel) n h k = elim (Bool-cases (ltb n 10)) [
  | inl small ↦
      let e : 0 * 10 + n ≡ n = omega arith in
      rw (digits_of-small fuel n small)
        (parse_one limit 0 n (ground arith) (ground arith) ∙ ap some e)
  | inr large ↦
      let front = parse_digits-digits_of limit fuel (n / 10) (ground arith) (ground arith) in
      let e : n / 10 * 10 + n % 10 ≡ n = omega arith in
      rw
        (
          digits_of-large fuel n large,
          parse_digits-append limit 0 (n / 10) (digits_of fuel (n / 10)) ((48 + n % 10) ∷ []) front,
        )
        (parse_one limit (n / 10) (n % 10) (omega arith) (omega arith) ∙ ap some e)
]

-- The digits of a number are digits, so the first is no plus sign.
pub digits_of-digits : (fuel n : ℕ) → All (λ c. is_digit c ≡ true) (digits_of fuel n)
digits_of-digits zero n = tt
digits_of-digits (suc fuel) n = elim (Bool-cases (ltb n 10)) [
  | inl small ↦ rw (digits_of-small fuel n small) (ground arith, tt)
  | inr large ↦ rw (digits_of-large fuel n large) (
      All-snoc (digits_of fuel (n / 10)) (48 + n % 10) (digits_of-digits fuel (n / 10))
        (ground arith))
]
  where
    All-snoc :
        (cs : List ℕ) (c : ℕ)
        → All (λ c. is_digit c ≡ true) cs
        → is_digit c ≡ true
        → All (λ c. is_digit c ≡ true) (cs ++ (c ∷ []))
    All-snoc [] c h k = (k, tt)
    All-snoc (d ∷ cs) c (p, h) k = (p, All-snoc cs c h k)

pub digits-Without :
    (separator : ℕ) (cs : List ℕ)
    → is_digit separator ≡ false
    → All (λ c. is_digit c ≡ true) cs
    → Without separator cs
digits-Without separator [] h k = tt
digits-Without separator (c ∷ cs) h (p, k) = (ground arith, digits-Without separator cs h k)

parse_unsigned-digits :
    (limit n : ℕ) (cs : List ℕ)
    → All (λ c. is_digit c ≡ true) cs
    → cs ≢ []
    → parse_digits limit 0 cs ≡ some n
    → parse_unsigned limit cs ≡ some n
parse_unsigned-digits limit n [] h k p = absurd (k refl)
parse_unsigned-digits limit n (c ∷ []) h k p = p
parse_unsigned-digits limit n (c ∷ d ∷ cs) (q, h) k p =
    let no_sign : (c == 43) ≡ false = ground arith in rw (parse_unsigned, no_sign) p

-- A number below the limit is read back from its decimal digits.
pub parse_unsigned-decimal : (limit n : ℕ) → n < limit → parse_unsigned limit (decimal n) ≡ some n
parse_unsigned-decimal limit n h =
    parse_unsigned-digits limit n (decimal n) (digits_of-digits (suc n) n) (some_digits n)
      (parse_digits-digits_of limit (suc n) n (omega arith) h)
  where
    snoc_some : (cs : List ℕ) (c : ℕ) → (cs ++ (c ∷ [])) ≢ []
    snoc_some [] c e = ground (arith, e)
    snoc_some (d ∷ cs) c e = ground (arith, e)

    some_digits : (n : ℕ) → decimal n ≢ []
    some_digits n e = elim (Bool-cases (ltb n 10)) [
      | inl small ↦ let e' = e in ground (arith, rw (digits_of-small n n small) at e')
      | inr large ↦
          let e' = e in
          snoc_some (digits_of n (n / 10)) (48 + n % 10) (rw (digits_of-large n n large) at e')
    ]
