-- ===== src/Remote/Session/Compare.antt =====
-- src/api.rs `constant_time_eq` against plain equality, through the binary digits of the differences.
use Prim.Native.Nat.{bit_or, bit_xor, digits, differ, bit_or-bitwise, bit_xor-bitwise}
use mlai_trade.Common.{
  ℕ, zero, suc, ◌+◌, ◌/◌, ◌%◌, ◌≤◌, ◌<◌, ◌≡◌, max, refl, ap, sym, ◌∙◌, subst, ◌↔◌, true, List, [],
  ◌∷◌, arith, ◌==◌, ==_iff, length, get_elem?,
}
use mlai_trade.Remote.Session.{byte_or_zero, diff_loop, constant_time_eq}

or_digits_zero : (n a b : ℕ) → a ≤ n → digits (λ b. b) max n a b ≡ 0 → (a ≡ 0) × (b ≡ 0)
or_digits_zero zero zero b h e = (refl, e)
or_digits_zero zero (suc a) b h e = absurd (omega arith)
or_digits_zero (suc n) zero b h e = (refl, e)
or_digits_zero (suc n) (suc a) b h e =
    let rest = or_digits_zero n (suc a / 2) (b / 2) (omega arith) (omega arith) in
    (omega (arith, rest), omega (arith, rest))

bit_or_zero : (a b : ℕ) → (bit_or a b ≡ 0) ↔ ((a ≡ 0) × (b ≡ 0))
bit_or_zero a b =
    (λ h. or_digits_zero a a b (omega arith) (sym (bit_or-bitwise a b) ∙ h), λ h. both h)
  where
    both : (a ≡ 0) × (b ≡ 0) → bit_or a b ≡ 0
    both (p, q) = rw (p, q) refl

differ_zero : (x y : ℕ) → differ x y ≡ 0 → x ≡ y
differ_zero zero y h = sym h
differ_zero (suc x) zero h = h
differ_zero (suc x) (suc y) h = ap suc (differ_zero x y h)

differ_same : (x : ℕ) → differ x x ≡ 0
differ_same zero = refl
differ_same (suc x) = differ_same x

xor_digits_zero : (n a b : ℕ) → a ≤ n → digits (λ b. b) differ n a b ≡ 0 → a ≡ b
xor_digits_zero zero zero b h e = sym e
xor_digits_zero zero (suc a) b h e = absurd (omega arith)
xor_digits_zero (suc n) zero b h e = sym e
xor_digits_zero (suc n) (suc a) b h e =
    let halves = xor_digits_zero n (suc a / 2) (b / 2) (omega arith) (omega arith) in
    let last = differ_zero (suc a % 2) (b % 2) (omega arith) in omega (arith, halves, last)

xor_digits_same : (n a : ℕ) → a ≤ n → digits (λ b. b) differ n a a ≡ 0
xor_digits_same zero zero h = refl
xor_digits_same zero (suc a) h = absurd (omega arith)
xor_digits_same (suc n) zero h = refl
xor_digits_same (suc n) (suc a) h =
    omega (arith, xor_digits_same n (suc a / 2) (omega arith), differ_same (suc a % 2))

bit_xor_zero : (a b : ℕ) → (bit_xor a b ≡ 0) ↔ (a ≡ b)
bit_xor_zero a b =
    (λ h. xor_digits_zero a a b (omega arith) (sym (bit_xor-bitwise a b) ∙ h), λ h. same h)
  where
    same : a ≡ b → bit_xor a b ≡ 0
    same e = rw e (bit_xor-bitwise b b ∙ xor_digits_same b b (omega arith))

abbrev at : List ℕ → ℕ → ℕ
at cs i = byte_or_zero (get_elem? cs i)

-- The difference stays 0 exactly when it was 0 and the bytes agree at every index that is left.
diff_loop_zero :
    (left right : List ℕ) (n i diff : ℕ)
    → diff_loop left right n i diff ≡ 0
    → (diff ≡ 0) × ((k : ℕ) → k < n → at left (i + k) ≡ at right (i + k))
unfolding diff_loop
diff_loop_zero left right zero i diff h = (h, λ k p. absurd (omega arith))
diff_loop_zero left right (suc n) i diff h =
    let (now, later) = diff_loop_zero left right n (suc i) _ h in
    let (before, here) = (bit_or_zero diff (bit_xor (at left i) (at right i))).0 now in
    (before, λ k p. at_index later ((bit_xor_zero (at left i) (at right i)).0 here) k p)
  where
    at_index :
        ((k : ℕ) → k < n → at left (suc i + k) ≡ at right (suc i + k))
        → at left i ≡ at right i
        → (k : ℕ) → k < suc n
        → at left (i + k) ≡ at right (i + k)
    at_index later here zero p = let e : i + 0 ≡ i = omega arith in rw e here
    at_index later here (suc k) p =
        let e : i + suc k ≡ suc i + k = omega arith in rw e (later k (omega arith))

diff_loop_same : (cs : List ℕ) (n i : ℕ) → diff_loop cs cs n i 0 ≡ 0
unfolding diff_loop
diff_loop_same cs zero i = refl
diff_loop_same cs (suc n) i =
    let none_here : bit_xor (at cs i) (at cs i) ≡ 0 = (bit_xor_zero (at cs i) (at cs i)).1 refl in
    let still : bit_or 0 (bit_xor (at cs i) (at cs i)) ≡ 0 =
      (bit_or_zero 0 _).1 (refl, none_here) in
    rw (diff_loop, still) (diff_loop_same cs n (suc i))

same_bytes :
    (cs ds : List ℕ)
    → length cs ≡ length ds
    → ((k : ℕ) → k < length cs → at cs k ≡ at ds k)
    → cs ≡ ds
same_bytes [] [] e h = refl
same_bytes [] (d ∷ ds) e h = absurd (omega arith)
same_bytes (c ∷ cs) [] e h = absurd (omega arith)
same_bytes (c ∷ cs) (d ∷ ds) e h =
    let first : c ≡ d = h 0 (omega arith) in
    let rest = same_bytes cs ds (omega arith) (λ k p. h (suc k) (omega arith)) in
    rw (first, rest) refl

-- The comparison that reads every byte is true exactly for equal texts.
pub constant_time_eq_iff :
    (left right : List ℕ) → (constant_time_eq left right ≡ true) ↔ (left ≡ right)
unfolding constant_time_eq
constant_time_eq_iff left right = (λ h. equal ((==_iff _ 0).0 h), λ e. rw e same)
  where
    equal :
        diff_loop left right
            (max (length left) (length right))
            0
            (bit_xor (length left) (length right))
          ≡ 0
        → left ≡ right
    equal h =
        let (lengths, bytes) =
          diff_loop_zero left right (max (length left) (length right)) 0
            (bit_xor (length left) (length right)) h in
        same_bytes left right ((bit_xor_zero (length left) (length right)).0 lengths) (λ k p.
          let e : 0 + k ≡ k = omega arith in
          subst (λ (j : ℕ). at left j ≡ at right j) e (bytes k (omega arith)))

    same :
        (diff_loop right right
            (max (length right) (length right))
            0
            (bit_xor (length right) (length right))
          == 0)
        ≡ true
    same =
        let lengths : bit_xor (length right) (length right) ≡ 0 =
          (bit_xor_zero (length right) (length right)).1 refl in
        rw (lengths, diff_loop_same right (max (length right) (length right)) 0) refl
