-- ===== src/Remote/Bits.antt =====
-- Binary digits for src/api.rs: tables that are checked by evaluation, and masks of leading ones.
use Prim.Native.Nat.{min, bit_and, digits, bit_and-bitwise}
use native.Mathlib.Nat.{
  mul_comm, pow-suc, one-le-pow, div-div-eq-div-mul, div-lt_iff_lt-mul, eq_of_mul-eq-mul_right,
}
use mlai_trade.Common.{
  ℕ, zero, suc, ◌+◌, ◌-◌, ◌*◌, ◌/◌, ◌%◌, ◌^◌, ◌≤◌, ◌<◌, ◌≡◌, refl, ap, sym, ◌∙◌, ◌↔◌, Bool, true,
  false, if◌then◌else◌, ◌==◌, Bool-cases, inl, inr, arith,
}

-- The values in front of a bound, looked at one by one when the test is evaluated.
unfoldable pub table : (ℕ → Bool) → ℕ → Bool
table p zero = true
table p (suc bound) = if p bound then table p bound else false

pub table_entry :
    (p : ℕ → Bool) (bound entry : ℕ) → entry < bound → table p bound ≡ true → p entry ≡ true
unfolding table
table_entry p zero entry below holds = absurd (omega arith)
table_entry p (suc bound) entry below holds = elim (Bool-cases (entry == bound)) [
  | inl last ↦ let e : entry ≡ bound = ground arith in rw e (ground (arith, holds))
  | inr earlier ↦ table_entry p bound entry (ground (arith, earlier)) (ground (arith, holds))
]

-- Any number of digits that is large enough gives one result.
digits_enough :
    (z : ℕ → ℕ) (f : ℕ → ℕ → ℕ) (a b m n : ℕ) → a ≤ m → a ≤ n → digits z f m a b ≡ digits z f n a b
digits_enough z f zero b zero zero p q = refl
digits_enough z f zero b zero (suc n) p q = refl
digits_enough z f zero b (suc m) zero p q = refl
digits_enough z f zero b (suc m) (suc n) p q = refl
digits_enough z f (suc a) b zero n p q = absurd (omega arith)
digits_enough z f (suc a) b (suc m) zero p q = absurd (omega arith)
digits_enough z f (suc a) b (suc m) (suc n) p q =
    ap (λ (front : ℕ). front * 2 + f (suc a % 2) (b % 2))
      (digits_enough z f (suc a / 2) (b / 2) m n (omega arith) (omega arith))

-- The halves, and the last digits.
bit_and-halves : (a b : ℕ) → bit_and a b ≡ bit_and (a / 2) (b / 2) * 2 + min (a % 2) (b % 2)
bit_and-halves zero b =
    let none_left = λ (c : ℕ). bit_and-bitwise 0 c in omega (arith, none_left b, none_left (b / 2))
bit_and-halves (suc a) b =
    bit_and-bitwise (suc a) b
    ∙ ap (λ (front : ℕ). front * 2 + min (suc a % 2) (b % 2))
        (digits_enough _ min (suc a / 2) (b / 2) a (suc a / 2) (omega arith) (omega arith)
          ∙ sym (bit_and-bitwise (suc a / 2) (b / 2)))

bit_and-ones : (j a : ℕ) → a < 2 ^ j → bit_and a (2 ^ j - 1) ≡ a
bit_and-ones zero a h = let none_set : a ≡ 0 = omega (arith, h) in rw none_set refl
bit_and-ones (suc j) a h =
    let power = pow-suc 2 j in
    let some_ones = one-le-pow j 2 (omega arith) in
    let half : (2 ^ suc j - 1) / 2 ≡ 2 ^ j - 1 = omega arith in
    let smaller : a / 2 < 2 ^ j = omega arith in
    let halves = bit_and-halves a (2 ^ suc j - 1) in
    omega (arith, rw half at halves, bit_and-ones j (a / 2) smaller)

bit_and-shifted : (k a m : ℕ) → bit_and a (m * 2 ^ k) ≡ bit_and (a / 2 ^ k) m * 2 ^ k
bit_and-shifted zero a m =
    let e : m * 1 ≡ m = omega arith in let f : a / 1 ≡ a = omega arith in rw (e, f) (omega arith)
bit_and-shifted (suc k) a m =
    let doubled : m * 2 ^ suc k ≡ m * 2 ^ k * 2 = rw (pow-suc 2 k) (omega arith) in
    let outer : bit_and (a / 2 ^ suc k) m * 2 ^ suc k ≡ bit_and (a / 2 ^ suc k) m * 2 ^ k * 2 =
      rw (pow-suc 2 k) (omega arith) in
    let divided : a / 2 / 2 ^ k ≡ a / 2 ^ suc k =
      div-div-eq-div-mul a 2 (2 ^ k)
      ∙ ap (λ (t : ℕ). a / t) (sym (pow-suc 2 k ∙ mul_comm (2 ^ k) 2)) in
    let half : m * 2 ^ k * 2 / 2 ≡ m * 2 ^ k = omega arith in
    let halves = bit_and-halves a (m * 2 ^ k * 2) in
    let rest = bit_and-shifted k (a / 2) m in
    rw (doubled, outer) (omega (arith, rw half at halves, rw divided at rest))

-- A mask of j ones and k zeros keeps what is above the k digits.
pub bit_and-mask :
    (j k a : ℕ) → a < 2 ^ j * 2 ^ k → bit_and a ((2 ^ j - 1) * 2 ^ k) ≡ a / 2 ^ k * 2 ^ k
bit_and-mask j k a h =
    let power = one-le-pow k 2 (omega arith) in
    bit_and-shifted k a (2 ^ j - 1)
    ∙ ap (λ (t : ℕ). t * 2 ^ k) (bit_and-ones j (a / 2 ^ k) ((div-lt_iff_lt-mul (omega arith)).1 h))

-- Two numbers agree under such a mask exactly when they agree above the k digits.
pub bit_and-mask_iff :
    (j k a b : ℕ)
    → a < 2 ^ j * 2 ^ k
    → b < 2 ^ j * 2 ^ k
    → (bit_and a ((2 ^ j - 1) * 2 ^ k) ≡ bit_and b ((2 ^ j - 1) * 2 ^ k)) ↔ (a / 2 ^ k ≡ b / 2 ^ k)
bit_and-mask_iff j k a b h h' =
    let power = one-le-pow k 2 (omega arith) in
    rw (bit_and-mask j k a h, bit_and-mask j k b h')
      (
        λ e. eq_of_mul-eq-mul_right (2 ^ k) (omega arith) (a / 2 ^ k) (b / 2 ^ k) e,
        λ e. ap (λ (t : ℕ). t * 2 ^ k) e,
      )
