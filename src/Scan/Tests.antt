-- ===== src/Scan/Tests.antt =====
-- The plan of the missing bars at concrete dates.
use mlai_trade.Common.{ℕ, ◌≡◌, refl, List, [], ◌∷◌, arith, All}
use mlai_trade.Scan.{DateRange, collapse_missing_dates, collapse_loop, plan_symbol}
use mlai_trade.Scan.Ranges.{IsAscending, IsServed, plan_symbol-IsServed}

abbrev range : ℕ → ℕ → DateRange
range start end = record { start = start; end = end }

abbrev two_weeks : List ℕ
two_weeks = 3 ∷ 4 ∷ 7 ∷ 12 ∷ 13 ∷ []

two_ranges : collapse_missing_dates two_weeks ≡ range 3 7 ∷ range 12 13 ∷ []
unfolding collapse_missing_dates collapse_loop
two_ranges = refl

two_weeks-IsAscending : IsAscending 0 two_weeks
two_weeks-IsAscending =
    (omega arith, (omega arith, (omega arith, (omega arith, (omega arith, tt)))))

plan_symbol-IsServed_example :
    All
      (IsServed (3 ∷ []) (range 4 6 ∷ []) (plan_symbol (3 ∷ []) (range 4 6 ∷ []) two_weeks))
      two_weeks
plan_symbol-IsServed_example =
    plan_symbol-IsServed (3 ∷ []) (range 4 6 ∷ []) two_weeks two_weeks-IsAscending
