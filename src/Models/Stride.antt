-- ===== src/Models/Stride.antt =====
-- The row stride of src/ml.rs.
use native.Mathlib.Nat.{mod-lt}
use native.Mathlib.Omega.{div_any}
use mlai_trade.Common.{
  ℕ, ◌+◌, ◌-◌, ◌*◌, ◌/◌, ◌%◌, suc, zero, ◌≤◌, ◌<◌, ◌≡◌, max, refl, ◌⊎◌, inl, inr, ◌||◌, arith, leb,
  ◌==◌, Bool-cases,
}
use mlai_trade.Models.{row_stride_for_limit}

-- The quotient rounded up, for a quotient `q` with its remainder.
rounded_up :
    (total max_rows q r : ℕ)
    → max_rows < total
    → max_rows * q + r ≡ total + max_rows - 1
    → r < max_rows
    → (total ≤ max q 1 * max_rows) × (0 < max q 1) × ((max q 1 - 1) * max_rows < total)
rounded_up total max_rows zero r h e k = absurd (omega arith)
rounded_up total max_rows (suc q) r h e k =
    let m : max (suc q) 1 ≡ suc q = omega arith in
    let p : suc q - 1 ≡ q = omega arith in rw (m, p) (omega arith, omega arith, omega arith)

-- With a limit, the rows that a stride takes from a table are no more than the limit, and a smaller stride
-- of at least one row would take more.
row_stride_for_limit_lem :
    (total max_rows : ℕ)
    → 0 < max_rows
    → (total ≤ row_stride_for_limit total max_rows * max_rows)
      × (0 < row_stride_for_limit total max_rows)
      × ((row_stride_for_limit total max_rows ≡ 1)
          ⊎ ((row_stride_for_limit total max_rows - 1) * max_rows < total))
unfolding row_stride_for_limit
row_stride_for_limit_lem total max_rows h =
    elim (Bool-cases ((max_rows == 0) || leb total max_rows)) [
      | inl whole ↦ rw (row_stride_for_limit, whole) (ground (arith, whole), omega arith, inl refl)
      | inr part ↦
          let (enough, some_rows, least) =
            rounded_up total max_rows ((total + max_rows - 1) / max_rows)
              ((total + max_rows - 1) % max_rows) (ground (arith, part))
              (div_any (total + max_rows - 1) max_rows) (mod-lt (total + max_rows - 1) h) in
          rw (row_stride_for_limit, part) (enough, some_rows, inr least)
    ]
