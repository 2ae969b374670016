-- ===== src/Candidates/Options.antt =====
-- The symbols that src/auto.rs takes for options.
use mlai_trade.Common.{
  ℕ, zero, suc, ◌≤◌, ◌≡◌, ◌↔◌, refl, sym, ap, subst, ◌∙◌, ◌⊎◌, inl, inr, Bool, true, false, ◌&&◌,
  List, [], ◌∷◌, ◌++◌, if◌then◌else◌, arith, ltb, Bool-cases, take, drop, length, length-append,
  drop-append, take-append, append_assoc,
}
use mlai_trade.Candidates.{all_digits, is_strike, option_loop, compact, looks_like_option_symbol}

-- The parts of an option's symbol: root, date, kind and strike.
pub record IsOption (symbol : List ℕ) : Type 0 where
  pub root : List ℕ
  pub date : List ℕ
  pub kind : ℕ
  pub strike : List ℕ
  pub rooted : 1 ≤ length root
  pub parts : symbol ≡ root ++ (date ++ (kind ∷ strike))
  pub dated : (length date ≡ 6) × (all_digits date ≡ true)
  pub put_or_call : (kind ≡ 67) ⊎ (kind ≡ 80)
  pub priced : (8 ≤ length strike) × (all_digits strike ≡ true)

take-drop : {A : Type 0} (n : ℕ) (xs : List A) → xs ≡ take n xs ++ drop n xs
take-drop zero xs = refl
take-drop (suc n) [] = refl
take-drop {A} (suc n) (x ∷ xs) = ap (λ (l : List A). x ∷ l) (take-drop n xs)

length-take : {A : Type 0} (n : ℕ) (xs : List A) → n ≤ length xs → length (take n xs) ≡ n
length-take zero xs h = refl
length-take (suc n) [] h = absurd (omega arith)
length-take (suc n) (x ∷ xs) h = ap suc (length-take n xs (omega arith))

-- A match at the front of a rest that is long enough.
front-IsOption :
    (root cs tail : List ℕ)
    → 1 ≤ length root
    → tail ≡ drop 6 cs
    → 15 ≤ length cs
    → all_digits (take 6 cs) ≡ true
    → is_strike tail ≡ true
    → IsOption (root ++ cs)
front-IsOption root cs [] r e h digits strike = absurd (ground arith)
front-IsOption root cs (kind ∷ strike) r e h digits good = record {
  root = root;
  date = take 6 cs;
  kind = kind;
  strike = strike;
  rooted = r;
  parts =
      ap (λ (l : List ℕ). root ++ l) (take-drop 6 cs ∙ ap (λ (l : List ℕ). take 6 cs ++ l) (sym e));
  dated = (length-take 6 cs (omega arith), digits);
  put_or_call = ground arith;
  priced = ground arith;
}

loop-IsOption : (root cs : List ℕ) → 1 ≤ length root → option_loop cs ≡ true → IsOption (root ++ cs)
unfolding option_loop
loop-IsOption root [] r h = absurd (ground arith)
loop-IsOption root (c ∷ cs) r h = elim (Bool-cases (ltb (length (c ∷ cs)) 15)) [
  | inl short ↦
      let h' = h in let bad = rw (option_loop, short) at h' in absurd (ground (arith, bad))
  | inr long ↦ elim (Bool-cases (all_digits (take 6 (c ∷ cs)) && is_strike (drop 6 (c ∷ cs)))) [
    | inl found ↦
        front-IsOption root (c ∷ cs) _ r refl (ground arith) (ground (arith, found))
          (ground (arith, found))
    | inr other ↦
        let h' = h in
        let rest : option_loop cs ≡ true = rw (option_loop, long, other) at h' in
        subst IsOption (append_assoc root (c ∷ []) cs)
          (loop-IsOption (root ++ (c ∷ [])) cs (omega (arith, length-append root (c ∷ []))) rest)
  ]
]

-- A match at the front, or behind a byte.
loop-front :
    (cs : List ℕ)
    → 15 ≤ length cs
    → (all_digits (take 6 cs) && is_strike (drop 6 cs)) ≡ true
    → option_loop cs ≡ true
unfolding option_loop
loop-front [] h found = absurd (omega arith)
loop-front (c ∷ cs) h found =
    let long : ltb (length (c ∷ cs)) 15 ≡ false = ground arith in rw (option_loop, long, found) refl

loop-behind :
    (c : ℕ) (cs : List ℕ) → 14 ≤ length cs → option_loop cs ≡ true → option_loop (c ∷ cs) ≡ true
unfolding option_loop
loop-behind c cs h found =
    let long : ltb (length (c ∷ cs)) 15 ≡ false = ground arith in
    elim (Bool-cases (all_digits (take 6 (c ∷ cs)) && is_strike (drop 6 (c ∷ cs)))) [
      | inl here ↦ rw (option_loop, long, here) refl
      | inr other ↦ rw (option_loop, long, other) found
    ]

loop-root :
    (root tail : List ℕ)
    → 15 ≤ length tail
    → option_loop tail ≡ true
    → option_loop (root ++ tail) ≡ true
loop-root [] tail h found = found
loop-root (c ∷ root) tail h found =
    loop-behind c (root ++ tail) (omega (arith, length-append root tail))
      (loop-root root tail h found)

tail-found :
    (date strike : List ℕ) (kind : ℕ)
    → length date ≡ 6
    → all_digits date ≡ true
    → (kind ≡ 67) ⊎ (kind ≡ 80)
    → 8 ≤ length strike
    → all_digits strike ≡ true
    → (15 ≤ length (date ++ (kind ∷ strike))) × (option_loop (date ++ (kind ∷ strike)) ≡ true)
tail-found date strike kind six digits put_or_call long good =
    let size : 15 ≤ length (date ++ (kind ∷ strike)) =
      omega (arith, length-append date (kind ∷ strike)) in
    let front : take 6 (date ++ (kind ∷ strike)) ≡ date =
      rw (sym six) (take-append date (kind ∷ strike)) in
    let back : drop 6 (date ++ (kind ∷ strike)) ≡ kind ∷ strike =
      rw (sym six) (drop-append date (kind ∷ strike)) in
    (size, loop-front _ size (rw (front, back, digits, good) (ground arith)))

-- The test on the text without blanks and dashes.
abbrev test : List ℕ → Bool
test cs = if ltb (length cs) 15 then false else option_loop (drop 1 cs)

test-IsOption : (cs : List ℕ) → test cs ≡ true → IsOption cs
test-IsOption [] h = absurd (ground arith)
test-IsOption (c ∷ cs) h = elim (Bool-cases (ltb (length (c ∷ cs)) 15)) [
  | inl short ↦ let h' = h in let bad = rw short at h' in absurd (ground (arith, bad))
  | inr long ↦ let h' = h in loop-IsOption (c ∷ []) cs (omega arith) (rw long at h')
]

root-test :
    (root tail : List ℕ)
    → 1 ≤ length root
    → 15 ≤ length tail
    → option_loop tail ≡ true
    → test (root ++ tail) ≡ true
root-test [] tail r h found = absurd (omega arith)
root-test (c ∷ root) tail r h found =
    let long : ltb (length (c ∷ root ++ tail)) 15 ≡ false =
      ground (arith, length-append root tail) in
    rw long (loop-root root tail h found)

IsOption-test : (cs : List ℕ) → IsOption cs → test cs ≡ true
IsOption-test cs o =
    let tail =
      tail-found o.date o.strike o.kind o.dated.0 o.dated.1 o.put_or_call o.priced.0 o.priced.1 in
    rw o.parts (root-test o.root (o.date ++ (o.kind ∷ o.strike)) o.rooted tail.0 tail.1)

-- A symbol is taken for an option exactly if without blanks and dashes it is a root of one byte or more, six
-- digits, `C` or `P`, and a strike of eight digits or more.
pub looks_like_option_symbol_iff :
    (symbol : List ℕ) → (looks_like_option_symbol symbol ≡ true) ↔ IsOption (compact symbol)
unfolding looks_like_option_symbol
looks_like_option_symbol_iff symbol =
    (test-IsOption (compact symbol), IsOption-test (compact symbol))
