-- ===== src/Tax/Fifo/Conservation.antt =====
-- The quantities and the order of the lots in the first-in first-out matching of src/tax.rs.
use mlai_trade.Common.{
  ℕ, zero, suc, ◌+◌, ◌-◌, ◌*◌, ◌≤◌, ◌<◌, min, ◌≡◌, refl, sym, subst, ◌⊎◌, inl, inr, List, [], ◌∷◌,
  arith, length, ltb, Bool-cases,
}
use mlai_trade.Tax.Positions.{FillActivity, OpenLot, Period, dust}
use mlai_trade.Tax.Fifo.{Report, Matching, push_front, match_lot, fifo_turn, fifo_loop, sell_lots}

abbrev pub total_qty : List OpenLot → ℕ
total_qty [] = 0
total_qty (lot ∷ lots) = lot.qty + total_qty lots

push_front_total :
    (lot : OpenLot) (left : ℕ) (lots : List OpenLot)
    → (total_qty (push_front lot left lots) ≤ left + total_qty lots)
      × (left + total_qty lots ≤ total_qty (push_front lot left lots) + dust)
      × (length (push_front lot left lots) ≤ suc (length lots))
unfolding push_front
push_front_total lot left lots = ground arith

-- What a run of the loop keeps, from `a` to `b`: nothing is sold twice, and each used lot drops at
-- most the dust.
record Conserves (lost : ℕ) (a b : Matching) : Type 0 where
  pub sells : b.remaining ≤ a.remaining
  pub takes : total_qty b.account_lots + a.remaining ≤ total_qty a.account_lots + b.remaining
  pub drops : total_qty a.account_lots + b.remaining ≤ total_qty b.account_lots + a.remaining + lost

turn_Conserves :
    (period : Period) (fill : FillActivity) (lots : List OpenLot) (remaining : ℕ) (report : Report)
    → Conserves dust
        (record { remaining = remaining; account_lots = lots; report = report })
        (fifo_turn period fill lots remaining report)
unfolding fifo_turn match_lot
turn_Conserves period fill [] remaining report = record {
  sells = omega arith;
  takes = omega arith;
  drops = omega arith;
}
turn_Conserves period fill (lot ∷ lots) remaining report =
    let (most, least, _) = push_front_total lot (lot.qty - min remaining lot.qty) lots in
    record { sells = omega arith; takes = omega arith; drops = omega arith }

-- The loop has stopped.
abbrev IsDone : Matching → Type 0
IsDone m = (m.remaining ≤ dust) ⊎ (m.account_lots ≡ [])

-- A turn ends the sale, uses up a lot or finds none.
turn_progress :
    (period : Period) (fill : FillActivity) (lots : List OpenLot) (remaining : ℕ) (report : Report)
    (fuel : ℕ)
    → (length lots < suc fuel) ⊎ ((remaining ≤ dust) ⊎ (lots ≡ []))
    → (length (fifo_turn period fill lots remaining report).account_lots < fuel)
      ⊎ IsDone (fifo_turn period fill lots remaining report)
unfolding fifo_turn match_lot push_front
turn_progress period fill [] remaining report fuel h = inr (inr refl)
turn_progress period fill (lot ∷ lots) remaining report fuel h = ground arith

loop_IsDone :
    (period : Period) (fill : FillActivity) (fuel : ℕ) (m : Matching)
    → (length m.account_lots < fuel) ⊎ IsDone m
    → IsDone (fifo_loop period fill fuel m)
unfolding fifo_loop
loop_IsDone period fill zero m (inl h) = absurd (omega arith)
loop_IsDone period fill zero m (inr h) = h
loop_IsDone period fill (suc fuel) m h = elim (Bool-cases (ltb dust m.remaining)) [
  | inl more ↦ rw more (
      loop_IsDone period fill fuel _
        (turn_progress period fill m.account_lots m.remaining m.report fuel h))
  | inr done ↦ rw done (inl (ground arith))
]

loop_Conserves :
    (period : Period) (fill : FillActivity) (fuel : ℕ) (m : Matching)
    → Conserves (fuel * dust) m (fifo_loop period fill fuel m)
unfolding fifo_loop
loop_Conserves period fill zero m = record {
  sells = omega arith;
  takes = omega arith;
  drops = omega arith;
}
loop_Conserves period fill (suc fuel) m = elim (Bool-cases (ltb dust m.remaining)) [
  | inl more ↦
      let turn = turn_Conserves period fill m.account_lots m.remaining m.report in
      let rest =
        loop_Conserves period fill fuel
          (fifo_turn period fill m.account_lots m.remaining m.report) in
      rw more (record {
        sells = omega (arith, turn.sells, rest.sells);
        takes = omega (arith, turn.takes, rest.takes);
        drops = omega (arith, turn.drops, rest.drops);
      })
  | inr done ↦ rw done (record { sells = omega arith; takes = omega arith; drops = omega arith })
]

-- A sale leaves no more than the dust of it unmatched or uses up all lots; what it matched has left
-- the lots, and apart from it the lots lose at most the dust for each lot and once more.
pub sell_lots_conserves :
    (period : Period) (fill : FillActivity) (lots : List OpenLot) (report : Report)
    → let sold = sell_lots period fill lots report in
      ((sold.remaining ≤ dust) ⊎ (sold.account_lots ≡ []))
      × (sold.remaining ≤ fill.qty)
      × (total_qty sold.account_lots + fill.qty ≤ total_qty lots + sold.remaining)
      × (total_qty lots + sold.remaining
          ≤ total_qty sold.account_lots + fill.qty + suc (length lots) * dust)
unfolding sell_lots
sell_lots_conserves period fill lots report =
    let start : Matching = record { remaining = fill.qty; account_lots = lots; report = report } in
    let run = loop_Conserves period fill (suc (length lots)) start in
    (
      loop_IsDone period fill (suc (length lots)) start (inl (omega arith)),
      run.sells,
      run.takes,
      run.drops,
    )

-- `rest` is left of `lots` when only first lots are used: whole lots, then a part of the next.
pub data IsFifoRest : List OpenLot → List OpenLot → Type 0 where
  kept : (lots : List OpenLot) → IsFifoRest lots lots
  part :
      (lot : OpenLot) (left : ℕ) (lots : List OpenLot)
      → left ≤ lot.qty
      → IsFifoRest (lot ∷ lots) (record lot { qty = left } ∷ lots)
  used :
      (lot : OpenLot) (lots rest : List OpenLot)
      → IsFifoRest lots rest
      → IsFifoRest (lot ∷ lots) rest

loop_ended :
    (period : Period) (fill : FillActivity) (fuel : ℕ) (m : Matching)
    → m.remaining ≤ dust
    → fifo_loop period fill fuel m ≡ m
unfolding fifo_loop
loop_ended period fill zero m h = refl
loop_ended period fill (suc fuel) m h = ground arith

loop_IsFifoRest :
    (period : Period) (fill : FillActivity) (fuel : ℕ) (lots : List OpenLot) (remaining : ℕ)
    (report : Report)
    → IsFifoRest lots
        (fifo_loop period fill fuel
          (record { remaining = remaining; account_lots = lots; report = report })).account_lots
unfolding fifo_loop fifo_turn match_lot push_front
loop_IsFifoRest period fill zero lots remaining report = kept lots
loop_IsFifoRest period fill (suc fuel) [] remaining report =
    elim (Bool-cases (ltb dust remaining)) [
      | inl more ↦ rw more (loop_IsFifoRest period fill fuel [] remaining report)
      | inr done ↦ rw done (kept [])
    ]
loop_IsFifoRest period fill (suc fuel) (lot ∷ lots) remaining report =
    elim (Bool-cases (ltb dust remaining)) [
      | inr done ↦ rw done (kept (lot ∷ lots))
      | inl more ↦ elim (Bool-cases (ltb dust (lot.qty - min remaining lot.qty))) [
        | inr used_up ↦
            rw (more, used_up) (used lot lots _ (loop_IsFifoRest period fill fuel lots _ _))
        | inl left_over ↦
            let much : dust < lot.qty - min remaining lot.qty = ground arith in
            let ended =
              loop_ended period fill fuel (match_lot period fill lot lots remaining report)
                (omega arith) in
            rw more (
              subst (λ (m : Matching). IsFifoRest (lot ∷ lots) m.account_lots) (sym ended)
                (rw left_over (part lot (lot.qty - min remaining lot.qty) lots (omega arith))))
      ]
    ]

-- A sale uses the lots in their order: whole first lots, and then at most a part of the next one.
sell_lots-IsFifoRest :
    (period : Period) (fill : FillActivity) (lots : List OpenLot) (report : Report)
    → IsFifoRest lots (sell_lots period fill lots report).account_lots
unfolding sell_lots
sell_lots-IsFifoRest period fill lots report =
    loop_IsFifoRest period fill (suc (length lots)) lots fill.qty report
