-- ===== src/Calendar/Days.antt =====
-- The day counts of src/auto.rs.
use mlai_trade.Common.{
  ℕ, zero, suc, ◌+◌, ◌-◌, ◌*◌, ◌≤◌, ◌≡◌, refl, subst, sym, ◌∙◌, ◌⊎◌, inl, inr, true, false, some,
  arith, leb, ◌==◌, Bool-cases, if◌then◌else◌,
}
use mlai_trade.Calendar.{
  Dates, count_loop, count_market_days, is_weekend, business_loop, add_business_days,
}

module _ (dates : Dates) where
  open dates use {weekday, weekday_lt, weekday_next}

  count_loop-split :
      (n m d : ℕ) → count_loop dates (n + m) d ≡ count_loop dates n d + count_loop dates m (d + n)
  unfolding count_loop
  count_loop-split zero m d =
      let e : zero + m ≡ m = omega arith in
      let f : d + 0 ≡ d = omega arith in rw (e, f) (omega arith)
  count_loop-split (suc n) m d =
      let e : suc n + m ≡ suc (n + m) = omega arith in
      let f : d + suc n ≡ d + 1 + n = omega arith in
      rw (e, f) (omega (arith, count_loop-split n m (d + 1)))

  count_loop_le : (n d : ℕ) → count_loop dates n d ≤ n
  unfolding count_loop
  count_loop_le zero d = omega arith
  count_loop_le (suc n) d = ground (arith, count_loop_le n (d + 1))

  count_market_days_lem : (a b : ℕ) → count_market_days dates a b ≡ count_loop dates (b - a) (a + 1)
  unfolding count_market_days count_loop
  count_market_days_lem a b = elim (Bool-cases (leb b a)) [
    | inl none_between ↦ let e : b - a ≡ 0 = ground arith in rw (none_between, e) refl
    | inr some_between ↦ rw some_between refl
  ]

  -- The market days from one date to a later one and from there to a third add up, and there are no more
  -- of them than days.
  count_market_days-split :
      (a b c : ℕ)
      → a ≤ b
      → b ≤ c
      → (count_market_days dates a c ≡ count_market_days dates a b + count_market_days dates b c)
        × (count_market_days dates a c ≤ c - a)
  unfolding count_market_days
  count_market_days-split a b c h k =
      let days : (c - a) ≡ (b - a) + (c - b) = omega arith in
      let start : a + 1 + (b - a) ≡ b + 1 = omega arith in
      let split = count_loop-split (b - a) (c - b) (a + 1) in
      let split' : count_loop dates (c - a) (a + 1)
          ≡ count_loop dates (b - a) (a + 1) + count_loop dates (c - b) (b + 1) =
        rw (days, split, start) refl in
      rw (count_market_days_lem a c, count_market_days_lem a b, count_market_days_lem b c)
        (split', count_loop_le (c - a) (a + 1))

  -- The weekdays among the `n` days behind a date.
  abbrev pub number_weekdays : ℕ → ℕ → ℕ
  number_weekdays zero date = 0
  number_weekdays (suc n) date =
      (if is_weekend dates (suc date) then 0 else 1) + number_weekdays n (suc date)

  -- How many days of a weekend follow directly.
  abbrev skipped : ℕ → ℕ
  skipped date = if weekday date == 4 then 2 else if weekday date == 5 then 1 else 0

  -- The date `to` is the one that `days` weekdays behind `from` lead to.
  pub record IsBusinessDay (from days to : ℕ) : Type 0 where
    pub after : from ≤ to
    pub weekdays : number_weekdays (to - from) from ≡ days
    pub last : ((days ≡ 0) × (to ≡ from)) ⊎ (is_weekend dates to ≡ false)

  skipped_le : (date : ℕ) → skipped date ≤ 2
  skipped_le date = ground arith

  skipped_weekend :
      (date : ℕ) → is_weekend dates (suc date) ≡ true → skipped (suc date) + 1 ≡ skipped date
  skipped_weekend date h = ground (arith, h, weekday_next date, weekday_lt date)

  behind : (date to : ℕ) → suc date ≤ to → to - date ≡ suc (to - suc date)
  behind date to h = omega arith

  weekend_day :
      (date days to : ℕ)
      → is_weekend dates (suc date) ≡ true
      → IsBusinessDay (suc date) (suc days) to
      → IsBusinessDay date (suc days) to
  weekend_day date days to weekend h = record {
    after = omega (arith, h.after);
    weekdays = rw (behind date to h.after, weekend) (omega (arith, h.weekdays));
    last = elim h.last [
      | inl none_left ↦ absurd (omega (arith, none_left.0))
      | inr workday ↦ inr workday
    ];
  }

  work_day :
      (date days to : ℕ)
      → is_weekend dates (suc date) ≡ false
      → IsBusinessDay (suc date) days to
      → IsBusinessDay date (suc days) to
  work_day date days to workday h = record {
    after = omega (arith, h.after);
    weekdays = rw (behind date to h.after, workday) (omega (arith, h.weekdays));
    last = elim h.last [
      | inl at_end ↦ inr (subst (λ (t : ℕ). is_weekend dates t ≡ false) (sym at_end.1) workday)
      | inr later ↦ inr later
    ];
  }

  loop_weekend :
      (fuel date left : ℕ)
      → is_weekend dates (suc date) ≡ true
      → business_loop dates (suc fuel) date (suc left)
        ≡ business_loop dates fuel (suc date) (suc left)
  unfolding business_loop
  loop_weekend fuel date left h = rw (business_loop, h) refl

  loop_workday :
      (fuel date left : ℕ)
      → is_weekend dates (suc date) ≡ false
      → business_loop dates (suc fuel) date (suc left) ≡ business_loop dates fuel (suc date) left
  unfolding business_loop
  loop_workday fuel date left h = rw (business_loop, h) refl

  enough_left :
      (fuel date left : ℕ)
      → 3 * suc left + skipped date ≤ suc fuel + 2
      → (left ≡ 0) ⊎ (3 * left + skipped (suc date) ≤ fuel + 2)
  enough_left fuel date zero h = inl refl
  enough_left fuel date (suc left) h = inr (omega (arith, skipped_le (suc date)))

  abbrev FindsBusinessDay : ℕ → ℕ → ℕ → Type 0
  FindsBusinessDay fuel date left =
      (to : ℕ) × (business_loop dates fuel date left ≡ some to) × IsBusinessDay date left to

  business_loop-some :
      (fuel date left : ℕ)
      → (left ≡ 0) ⊎ (3 * left + skipped date ≤ fuel + 2)
      → FindsBusinessDay fuel date left
  unfolding business_loop
  business_loop-some fuel date zero h = (
    date,
    refl,
    record {
      after = omega arith;
      weekdays = let e : date - date ≡ 0 = omega arith in rw e refl;
      last = inl (refl, refl);
    },
  )
  business_loop-some zero date (suc left) h = absurd (omega arith)
  business_loop-some (suc fuel) date (suc left) (inl h) = absurd (omega arith)
  business_loop-some (suc fuel) date (suc left) (inr h) =
      elim (Bool-cases (is_weekend dates (suc date))) [
        | inl weekend ↦
            let enough : 3 * suc left + skipped (suc date) ≤ fuel + 2 =
              omega (arith, skipped_weekend date weekend) in
            let (to, found, spec) = business_loop-some fuel (suc date) (suc left) (inr enough) in
            (to, loop_weekend fuel date left weekend ∙ found, weekend_day date left to weekend spec)
        | inr workday ↦
            let (to, found, spec) =
              business_loop-some fuel (suc date) left (enough_left fuel date left h) in
            (to, loop_workday fuel date left workday ∙ found, work_day date left to workday spec)
      ]

  -- For every date and number of days the loop ends within three steps for each day, at the date with
  -- that many weekdays behind the first one up to itself, which is no weekend day unless no day was added.
  pub add_business_days-IsBusinessDay :
      (from days : ℕ)
      → (to : ℕ) × (add_business_days dates from days ≡ some to) × IsBusinessDay from days to
  unfolding add_business_days
  add_business_days-IsBusinessDay from days =
      business_loop-some (3 * days) from days (inr (omega (arith, skipped_le from)))
