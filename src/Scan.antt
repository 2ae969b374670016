-- ===== src/Scan.antt =====
-- src/main.rs: the plan of the daily bars that are missing. Dates are day numbers.
pub mod Ranges
mod Tests
use mlai_trade.Common.{
  ℕ, suc, ◌+◌, ◌-◌, Bool, true, false, not, ◌&&◌, if◌then◌else◌, ltb, leb, ◌==◌, List, [], ◌∷◌,
  ◌++◌, any,
}

pub record DateRange : Type 0 where
  pub start : ℕ
  pub end : ℕ

-- The loop of `collapse_missing_dates` from `start` and `previous` on.
unfoldable pub collapse_loop : ℕ → ℕ → List ℕ → List DateRange
collapse_loop start previous [] = record { start = start; end = previous } ∷ []
collapse_loop start previous (date ∷ dates) = elim (ltb (previous + 4) date) [
  | true ↦ record { start = start; end = previous } ∷ collapse_loop date date dates
  | false ↦ collapse_loop start date dates
]

unfoldable pub collapse_missing_dates : List ℕ → List DateRange
unfolding collapse_loop
collapse_missing_dates [] = []
collapse_missing_dates (date ∷ dates) = collapse_loop date date dates

abbrev pub is_covered_by : ℕ → DateRange → Bool
is_covered_by date r = leb r.start date && leb date r.end

abbrev pub date_covered_by_ranges : ℕ → List DateRange → Bool
date_covered_by_ranges date ranges = any (is_covered_by date) ranges

-- `existing_dates.contains`
abbrev pub contains : ℕ → List ℕ → Bool
contains date dates = any (λ d. d == date) dates

-- The missing dates of one symbol.
unfoldable pub missing_dates : List ℕ → List DateRange → List ℕ → List ℕ
missing_dates existing covered [] = []
missing_dates existing covered (date ∷ expected) =
    let rest = missing_dates existing covered expected in
    if not (contains date existing) && not (date_covered_by_ranges date covered)
    then date ∷ rest
    else rest

-- The requests planned for one symbol, without `force`.
unfoldable pub plan_symbol : List ℕ → List DateRange → List ℕ → List DateRange
unfolding missing_dates collapse_missing_dates
plan_symbol existing covered expected =
    collapse_missing_dates (missing_dates existing covered expected)
