-- ===== src/Exit/Conditions.antt =====
-- The conditions of src/auto.rs `evaluate_confirmed_exit` on the take-profit side, and the tests of them.
use mlai_trade.Common.{◌⊎◌, ℕ, ◌+◌, ◌*◌, ◌<◌, ◌≤◌, ◌≡◌, ◌↔◌, true, false, Option, none, some, arith}
use mlai_trade.Common.Int.{ℤ, ◌≤ℤ◌, ◌+ℤ◌, +ℤ_parts, -ℤ_parts}
use mlai_trade.Exit.{TakeProfitConfirmation, hold_ok, gave_back, at_or_below, at_or_above}

-- The conditions of a sale, written without the tests of the code. A position with no entry time is held
-- for no minute, and one with an entry time that is not over yet neither.
abbrev pub IsHeld : ℕ → ℕ → Option ℕ → Type 0
IsHeld minutes now none = minutes ≡ 0
IsHeld minutes now (some entry) = (minutes ≡ 0) ⊎ (entry + minutes * 60 ≤ now)

abbrev pub IsReached : Option ℕ → ℕ → Type 0
IsReached none price = ⊥
IsReached (some target) price = target ≤ price

abbrev pub IsAbove : Option ℕ → ℕ → Type 0
IsAbove none price = Unit {0}
IsAbove (some stop) price = stop < price

abbrev pub FellBack : Option ℤ → ℤ → ℤ → Type 0
FellBack none pnl giveback = ⊥
FellBack (some peak) pnl giveback = pnl +ℤ giveback ≤ℤ peak

pub hold_ok_iff :
    (c : TakeProfitConfirmation) (now : ℕ) (entry : Option ℕ)
    → (hold_ok c now entry ≡ true) ↔ IsHeld c.min_hold_minutes now entry
hold_ok_iff c now none = ground arith
hold_ok_iff c now (some entry) = ground arith

pub at_or_above_iff :
    (target : Option ℕ) (price : ℕ) → (at_or_above target price ≡ true) ↔ IsReached target price
at_or_above_iff none price = ground arith
at_or_above_iff (some target) price = ground arith

pub above_stop : (stop : Option ℕ) (price : ℕ) → IsAbove stop price → at_or_below stop price ≡ false
above_stop none price h = ground arith
above_stop (some stop) price h = ground arith

pub gave_back_iff :
    (peak pnl giveback : ℤ)
    → (gave_back (some peak) pnl giveback ≡ true) ↔ (pnl +ℤ giveback ≤ℤ peak)
gave_back_iff peak pnl giveback = ground (arith, -ℤ_parts peak pnl, +ℤ_parts pnl giveback)
