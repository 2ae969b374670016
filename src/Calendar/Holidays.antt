-- ===== src/Calendar/Holidays.antt =====
-- The holidays of src/auto.rs: Easter's range and the observed dates.
use mlai_trade.Common.{
  ℕ, suc, ◌+◌, ◌-◌, ◌*◌, ◌/◌, ◌%◌, ◌≤◌, ◌<◌, ◌≡◌, ap, sym, ◌∙◌, ◌⊎◌, inl, inr, true, arith, ◌==◌,
  Bool-cases,
}
use mlai_trade.Calendar.{Dates, MonthDay, easter, nyse_observed}

-- The last lines of the computation, for the year's remainder `a`, the moon's age `h` and the days `l`.
abbrev last_lines : ℕ → ℕ → ℕ → MonthDay
last_lines a h l =
    let m = (a + 11 * h + 22 * l) / 451 in
    record { month = (h + l + 114 - 7 * m) / 31; day = (h + l + 114 - 7 * m) % 31 + 1 }

-- March 22 to April 25.
abbrev pub IsEasterDay : MonthDay → Type 0
IsEasterDay d =
    ((d.month ≡ 3) × (22 ≤ d.day) × (d.day ≤ 31)) ⊎ ((d.month ≡ 4) × (1 ≤ d.day) × (d.day ≤ 25))

in_range : (v : ℕ) → 114 ≤ v → v ≤ 148 → IsEasterDay (record { month = v / 31; day = v % 31 + 1 })
in_range v h k = elim (Bool-cases (v / 31 == 3)) [
  | inl march ↦ inl (ground arith, ground arith, ground arith)
  | inr april ↦ inr (ground arith, ground arith, ground arith)
]

last_lines_range : (a h l : ℕ) → a < 19 → h < 30 → l < 7 → IsEasterDay (last_lines a h l)
last_lines_range a h l p q r =
    in_range (h + l + 114 - 7 * ((a + 11 * h + 22 * l) / 451)) (omega arith) (omega arith)

-- For every year from 0 on, the computed Easter is a day from March 22 to April 25, so the date that
-- is made of it exists.
easter-IsEasterDay : (year : ℕ) → IsEasterDay (easter year)
unfolding easter
easter-IsEasterDay year = last_lines_range (year % 19) _ _ (omega arith) (omega arith) (omega arith)

module _ (dates : Dates) where
  open dates use {weekday, from_ymd, weekday_lt, weekday_next}

  day_before : (raw : ℕ) → 1 ≤ raw → weekday raw ≡ (weekday (raw - 1) + 1) % 7
  day_before raw h =
      let e : suc (raw - 1) ≡ raw = omega arith in
      let next : weekday (suc (raw - 1)) ≡ (weekday (raw - 1) + 1) % 7 = weekday_next (raw - 1) in
      ap weekday (sym e) ∙ next

  day_after : (raw : ℕ) → weekday (raw + 1) ≡ (weekday raw + 1) % 7
  day_after raw = let e : raw + 1 ≡ suc raw = omega arith in ap weekday e ∙ weekday_next raw

  -- The observed date of a holiday after day 0 is no Saturday or Sunday, and at most one day away.
  pub nyse_observed_weekday :
      (year month day : ℕ)
      → 1 ≤ from_ymd year month day
      → (weekday (nyse_observed dates year month day) < 5)
        × (nyse_observed dates year month day ≤ from_ymd year month day + 1)
        × (from_ymd year month day ≤ nyse_observed dates year month day + 1)
  unfolding nyse_observed
  nyse_observed_weekday year month day h =
      let raw = from_ymd year month day in
      elim (Bool-cases (weekday raw == 5)) [
        | inl saturday ↦ rw saturday (
          omega (arith, day_before raw h, weekday_lt (raw - 1), is_five saturday),
          omega arith,
          omega arith,
        )
        | inr other ↦ elim (Bool-cases (weekday raw == 6)) [
          | inl sunday ↦
              rw (other, sunday)
                (
                  omega (arith, day_after raw, weekday_lt (raw + 1), is_six sunday),
                  omega arith,
                  omega arith,
                )
          | inr weekday_found ↦
              rw (other, weekday_found) (ground (arith, weekday_lt raw), omega arith, omega arith)
        ]
      ]
    where
      is_five : {n : ℕ} → (n == 5) ≡ true → n ≡ 5
      is_five h = ground arith

      is_six : {n : ℕ} → (n == 6) ≡ true → n ≡ 6
      is_six h = ground arith
