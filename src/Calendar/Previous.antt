-- ===== src/Calendar/Previous.antt =====
-- The walk back of src/main.rs to the last open date.
use mlai_trade.Common.{
  ℕ, zero, suc, ◌+◌, ◌-◌, ◌≤◌, ◌<◌, ◌≡◌, refl, subst, sym, ◌∙◌, ◌⊎◌, inl, inr, Bool, true, false,
  some, List, arith, ◌==◌, Bool-cases,
}
use mlai_trade.Calendar.{Dates, is_open, previous_open_market_date}

module _ (dates : Dates) where
  -- The date `to` is the last open one in front of `date`.
  pub record IsPreviousOpen (closed_dates : List ℕ) (date to : ℕ) : Type 0 where
    pub before : to < date
    pub open_date : is_open dates closed_dates to ≡ true
    pub latest : (d : ℕ) → (date ≤ d) ⊎ (d ≤ to) ⊎ (is_open dates closed_dates d ≡ false)

  found_here :
      (closed_dates : List ℕ) (fuel date : ℕ)
      → 1 ≤ date
      → is_open dates closed_dates (date - 1) ≡ true
      → previous_open_market_date dates closed_dates (suc fuel) date ≡ some (date - 1)
  unfolding previous_open_market_date
  found_here closed_dates fuel date h open_day = rw (previous_open_market_date, open_day) refl

  found_earlier :
      (closed_dates : List ℕ) (fuel date : ℕ)
      → is_open dates closed_dates (date - 1) ≡ false
      → previous_open_market_date dates closed_dates (suc fuel) date
        ≡ previous_open_market_date dates closed_dates fuel (date - 1)
  unfolding previous_open_market_date
  found_earlier closed_dates fuel date closed_day = rw (previous_open_market_date, closed_day) refl

  IsPreviousOpen-step :
      (closed_dates : List ℕ) (date to : ℕ)
      → is_open dates closed_dates (date - 1) ≡ false
      → IsPreviousOpen closed_dates (date - 1) to
      → IsPreviousOpen closed_dates date to
  IsPreviousOpen-step closed_dates date to closed_day h = record {
    before = omega (arith, h.before);
    open_date = h.open_date;
    latest = λ d. elim (Bool-cases (d == (date - 1))) [
      | inl same ↦
          let e : d ≡ date - 1 = ground arith in
          inr (inr (subst (λ (t : ℕ). is_open dates closed_dates t ≡ false) (sym e) closed_day))
      | inr other ↦ elim (h.latest d) [ inl later ↦ inl (ground arith) | inr earlier ↦ inr earlier ]
    ];
  }

  -- With an open date `first` in front of `date`, the walk back ends within as many steps as there are
  -- days between them, at the last open date in front of `date`.
  previous_open_market_date-IsPreviousOpen :
      (closed_dates : List ℕ) (fuel date first : ℕ)
      → is_open dates closed_dates first ≡ true
      → first < date
      → date ≤ first + fuel
      → (to : ℕ) × (previous_open_market_date dates closed_dates fuel date ≡ some to)
        × IsPreviousOpen closed_dates date to
  previous_open_market_date-IsPreviousOpen closed_dates zero date first open_day h k =
      absurd (omega arith)
  previous_open_market_date-IsPreviousOpen closed_dates (suc fuel) date first open_day h k =
      elim (Bool-cases (is_open dates closed_dates (date - 1))) [
        | inl here ↦ (
          date - 1,
          found_here closed_dates fuel date (omega arith) here,
          record { before = omega arith; open_date = here; latest = λ d. omega arith },
        )
        | inr closed_day ↦
            let differ : first < date - 1 = not_last closed_day in
            let (to, found, spec) =
              previous_open_market_date-IsPreviousOpen closed_dates fuel (date - 1) first open_day
                differ (omega arith) in
            (
              to,
              found_earlier closed_dates fuel date closed_day ∙ found,
              IsPreviousOpen-step closed_dates date to closed_day spec,
            )
      ]
    where
      differ : true ≡ false → ⊥
      differ e = subst (λ (b : Bool). elim b [ true ↦ Unit | false ↦ ⊥ ]) e tt

      not_last : is_open dates closed_dates (date - 1) ≡ false → first < date - 1
      not_last closed_day = elim (Bool-cases (first == (date - 1))) [
        | inl same ↦
            let e : first ≡ date - 1 = ground arith in
            let at_first : is_open dates closed_dates first ≡ false =
              subst (λ (t : ℕ). is_open dates closed_dates t ≡ false) (sym e) closed_day in
            absurd (differ (sym open_day ∙ at_first))
        | inr other ↦ ground arith
      ]
