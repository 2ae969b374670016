-- ===== src/Scan/Ranges.antt =====
-- What src/main.rs `collapse_missing_dates` and the plan of the bar requests cover.
use mlai_trade.Common.{
  ℕ, ◌+◌, ◌≤◌, ◌≡◌, refl, sym, subst, ◌⊎◌, inl, inr, true, false, not, ◌&&◌, ltb, List, [], ◌∷◌,
  arith, All, Any, Bool-cases,
}
use mlai_trade.Scan.{
  DateRange, collapse_loop, collapse_missing_dates, date_covered_by_ranges, contains, missing_dates,
  plan_symbol,
}

-- Ascending from `low` on.
abbrev pub IsAscending : ℕ → List ℕ → Type 0
IsAscending low [] = Unit
IsAscending low (d ∷ ds) = (low ≤ d) × IsAscending d ds

abbrev pub Covers : List DateRange → ℕ → Type 0
Covers ranges date = Any (λ r. (r.start ≤ date) × (date ≤ r.end)) ranges

abbrev IsIn : ℕ → List ℕ → Type 0
IsIn d ds = Any (λ e. e ≡ d) ds

-- From `low` on the ranges are in order and more than four days apart.
abbrev pub AreApart : ℕ → List DateRange → Type 0
AreApart low [] = Unit
AreApart low (r ∷ rs) = (low ≤ r.start) × (r.start ≤ r.end) × AreApart (r.end + 5) rs

-- The loop at one date, by the gap before it.
loop-gap :
    (start previous date : ℕ) (ds : List ℕ)
    → ltb (previous + 4) date ≡ true
    → collapse_loop start previous (date ∷ ds)
      ≡ record { start = start; end = previous } ∷ collapse_loop date date ds
unfolding collapse_loop
loop-gap start previous date ds h = rw (h, collapse_loop) refl

loop-near :
    (start previous date : ℕ) (ds : List ℕ)
    → ltb (previous + 4) date ≡ false
    → collapse_loop start previous (date ∷ ds) ≡ collapse_loop start date ds
unfolding collapse_loop
loop-near start previous date ds h = rw (h, collapse_loop) refl

loop-Covers-start :
    (ds : List ℕ) (start previous : ℕ) (d : ℕ)
    → IsAscending previous ds
    → start ≤ d
    → d ≤ previous
    → Covers (collapse_loop start previous ds) d
unfolding collapse_loop
loop-Covers-start [] start previous d h k l = inl (k, l)
loop-Covers-start (date ∷ ds) start previous d (h, hs) k l =
    elim (Bool-cases (ltb (previous + 4) date)) [
      | inl gap ↦ rw (loop-gap start previous date ds gap) (inl (k, l))
      | inr near ↦
          rw (loop-near start previous date ds near)
            (loop-Covers-start ds start date d hs k (omega arith))
    ]

All-Covers-cons :
    (r : DateRange) (rs : List DateRange) (ds : List ℕ)
    → All (Covers rs) ds
    → All (Covers (r ∷ rs)) ds
All-Covers-cons r rs [] h = tt
All-Covers-cons r rs (d ∷ ds) (h, hs) = (inr h, All-Covers-cons r rs ds hs)

loop-Covers :
    (ds : List ℕ) (start previous : ℕ)
    → start ≤ previous
    → IsAscending previous ds
    → All (Covers (collapse_loop start previous ds)) ds
loop-Covers [] start previous h a = tt
loop-Covers (date ∷ ds) start previous h (a, as') = elim (Bool-cases (ltb (previous + 4) date)) [
  | inl gap ↦
      subst (λ (rs : List DateRange). All (Covers rs) (date ∷ ds))
        (sym (loop-gap start previous date ds gap))
        (
          inr (loop-Covers-start ds date date date as' (omega arith) (omega arith)),
          All-Covers-cons _ _ ds (loop-Covers ds date date (omega arith) as'),
        )
  | inr near ↦
      subst (λ (rs : List DateRange). All (Covers rs) (date ∷ ds))
        (sym (loop-near start previous date ds near))
        (
          loop-Covers-start ds start date date as' (omega arith) (omega arith),
          loop-Covers ds start date (omega arith) as',
        )
]

loop-AreApart :
    (ds : List ℕ) (low start previous : ℕ)
    → low ≤ start
    → start ≤ previous
    → IsAscending previous ds
    → AreApart low (collapse_loop start previous ds)
unfolding collapse_loop
loop-AreApart [] low start previous h k a = (h, k, tt)
loop-AreApart (date ∷ ds) low start previous h k (b, bs) =
    elim (Bool-cases (ltb (previous + 4) date)) [
      | inl gap ↦
          rw (loop-gap start previous date ds gap)
            (h, k, loop-AreApart ds (previous + 5) date date (ground arith) (omega arith) bs)
      | inr near ↦
          rw (loop-near start previous date ds near)
            (loop-AreApart ds low start date h (omega arith) bs)
    ]

-- From ascending dates, the ranges cover every date, run forward, and stand in order with more than
-- four days between them.
collapse_missing_dates-Covers :
    (low : ℕ) (dates : List ℕ)
    → IsAscending low dates
    → All (Covers (collapse_missing_dates dates)) dates
      × AreApart low (collapse_missing_dates dates)
unfolding collapse_missing_dates
collapse_missing_dates-Covers low [] h = (tt, tt)
collapse_missing_dates-Covers low (date ∷ ds) (h, hs) = (
  (
    loop-Covers-start ds date date date hs (omega arith) (omega arith),
    loop-Covers ds date date (omega arith) hs,
  ),
  loop-AreApart ds low date date h (omega arith) hs,
)

-- A date is served: stored, covered by an earlier request, or in a planned one.
abbrev pub IsServed : List ℕ → List DateRange → List DateRange → ℕ → Type 0
IsServed existing covered planned date =
    (contains date existing ≡ true)
    ⊎ (date_covered_by_ranges date covered ≡ true)
    ⊎ Covers planned date

IsAscending-weaken :
    (low high : ℕ) (ds : List ℕ) → low ≤ high → IsAscending high ds → IsAscending low ds
IsAscending-weaken low high [] h a = tt
IsAscending-weaken low high (d ∷ ds) h (a, rest) = (omega arith, rest)

missing-IsAscending :
    (existing : List ℕ) (covered : List DateRange) (expected : List ℕ) (low : ℕ)
    → IsAscending low expected
    → IsAscending low (missing_dates existing covered expected)
unfolding missing_dates
missing-IsAscending existing covered [] low h = tt
missing-IsAscending existing covered (date ∷ ds) low (h, hs) =
    let rest = missing-IsAscending existing covered ds date hs in
    elim (Bool-cases (not (contains date existing) && not (date_covered_by_ranges date covered))) [
      | inl missing ↦ rw missing (h, rest)
      | inr served ↦ rw served (IsAscending-weaken low date _ h rest)
    ]

missing-IsServed :
    (existing : List ℕ) (covered planned : List DateRange) (expected : List ℕ)
    → All (Covers planned) (missing_dates existing covered expected)
    → All (IsServed existing covered planned) expected
unfolding missing_dates
missing-IsServed existing covered planned [] h = tt
missing-IsServed existing covered planned (date ∷ ds) h =
    elim (Bool-cases (contains date existing)) [
      | inl stored ↦ (inl stored, missing-IsServed existing covered planned ds (rw stored at h))
      | inr fresh ↦ elim (Bool-cases (date_covered_by_ranges date covered)) [
        | inl early ↦
            (inr (inl early), missing-IsServed existing covered planned ds (rw (fresh, early) at h))
        | inr missing ↦
            let (found, rest) = rw (fresh, missing) at h in
            (inr (inr found), missing-IsServed existing covered planned ds rest)
      ]
    ]

-- Every expected date, the dates in order, is stored already, covered by an earlier request, or
-- covered by a planned one.
pub plan_symbol-IsServed :
    (existing : List ℕ) (covered : List DateRange) (expected : List ℕ)
    → IsAscending 0 expected
    → All (IsServed existing covered (plan_symbol existing covered expected)) expected
unfolding plan_symbol
plan_symbol-IsServed existing covered expected h =
    let missing = missing-IsAscending existing covered expected 0 h in
    missing-IsServed existing covered _ expected (collapse_missing_dates-Covers 0 _ missing).0
