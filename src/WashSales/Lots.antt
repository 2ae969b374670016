-- ===== src/WashSales/Lots.antt =====
-- The loop of src/auto.rs that takes a sale out of the lots.
use mlai_trade.Common.{
  ℕ, zero, suc, ◌-◌, min, ◌≤◌, ◌<◌, ◌≡◌, refl, ◌⊎◌, inl, inr, false, List, [], ◌∷◌, arith, ltb, leb,
  Bool-cases, length,
}
use mlai_trade.WashSales.{
  SyncedFill, qty_dust, FillLot, Matched, match_front, match_turn, match_loop, match_fill_lots,
}

stopped :
    (price fuel : ℕ) (m : Matched) → ltb qty_dust m.remaining ≡ false → match_loop price fuel m ≡ m
unfolding match_loop
stopped price zero m h = refl
stopped price (suc fuel) m h = rw (match_loop, h) refl

-- A turn ends the sale or uses up a lot.
front-shorter :
    (price : ℕ) (front : FillLot) (lots : List FillLot) (m : Matched)
    → ((match_front price front lots m).remaining ≡ 0)
      ⊎ ((match_front price front lots m).lots ≡ lots)
front-shorter price front lots m =
    elim (Bool-cases (leb (front.qty_remaining - min m.remaining front.qty_remaining) qty_dust)) [
      | inl empty ↦ inr (rw empty refl)
      | inr left ↦ inl (ground arith)
    ]

turn-shorter :
    (price : ℕ) (m : Matched) (lots : List FillLot)
    → ((match_turn price m lots).remaining ≤ qty_dust)
      ⊎ (suc (length (match_turn price m lots).lots) ≤ length lots)
turn-shorter price m [] = inl (omega arith)
turn-shorter price m (front ∷ lots) = elim (front-shorter price front lots m) [
  | inl done ↦ inl (omega (arith, done))
  | inr used ↦ inr (rw used (omega arith))
]

-- With more fuel than there are lots, the loop over the lots ends with no more than the dust unmatched.
loop_ends :
    (price fuel : ℕ) (m : Matched)
    → length m.lots < fuel
    → (match_loop price fuel m).remaining ≤ qty_dust
unfolding match_loop
loop_ends price zero m h = absurd (omega arith)
loop_ends price (suc fuel) m h = elim (Bool-cases (ltb qty_dust m.remaining)) [
  | inr small ↦ rw (stopped price (suc fuel) m small) (ground arith)
  | inl large ↦
      rw (match_loop, large)
        (elim (turn-shorter price m m.lots) [
          | inl done ↦ rw (stopped price fuel (match_turn price m m.lots) (ground arith)) done
          | inr shorter ↦ loop_ends price fuel (match_turn price m m.lots) (omega arith)
        ])
]

-- The fuel given for a sale is enough.
match_fill_lots_ends :
    (fill : SyncedFill) (lots : List FillLot) → (match_fill_lots fill lots).remaining ≤ qty_dust
unfolding match_fill_lots
match_fill_lots_ends fill lots =
    loop_ends fill.price (suc (length lots))
      (record { remaining = fill.qty; lots = lots; loss_amount = 0; unmatched = 0 }) (omega arith)
