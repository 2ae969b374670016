-- ===== src/WashSales/Again.antt =====
-- Two runs of src/auto.rs over the same fills.
use mlai_trade.Common.{
  ℕ, suc, ◌≡◌, refl, sym, ap, true, false, is_some, List, [], ◌∷◌, map, arith, ltb, All, Bool-cases,
  Option-cases, inl, inr, subst,
}
use mlai_trade.Common.Int.{ℤ, pos, leb_ℤ}
use mlai_trade.Tax.Positions.{TaxCountry}
use mlai_trade.Compliance.{tax_country_profile}
use mlai_trade.WashSales.{
  Moment, Window, Side, SyncedFill, forward_days, insert_reconciled_wash_sale, loss_dust,
  match_fill_lots, Book, Reconciled, count_sell, after_loss, lots_after, counts_after, no_lots,
  at_start, reconcile_loop, reconcile_wash_sales_for_tax_universe,
}
use mlai_trade.WashSales.Windows.{IsTracked}
use mlai_trade.WashSales.Blocks.{sold_at_loss, loss_sales, loop-IsTracked}

-- The same fill, read at another time.
abbrev pub read_at : Moment → SyncedFill → SyncedFill
read_at now fill = record fill { utc_now = now }

-- Nothing was inserted behind these counts, and every loss sale was found.
abbrev pub IsFound : List Window → Reconciled → Type 0
IsFound tracker r =
    (r.tracker ≡ tracker)
    × (r.summary.windows_inserted ≡ 0)
    × (r.summary.windows_existing ≡ r.summary.loss_sells)

read_at-IsTracked :
    (tracker : List Window) (now : Moment) (fill : SyncedFill)
    → is_some fill.transaction_time ≡ true
    → IsTracked tracker fill
    → IsTracked tracker (read_at now fill)
read_at-IsTracked tracker now fill timed h = elim (Option-cases fill.transaction_time) [
  | inl none_given ↦ absurd (ground (arith, none_given))
  | inr (t, e) ↦ let h' = h in rw e (rw e at h')
]

lots_after-read_at :
    (side : Side) (now : Moment) (fill : SyncedFill) (book : Book)
    → lots_after side (read_at now fill) book ≡ lots_after side fill book
unfolding match_fill_lots
lots_after-read_at Side.buy now fill book = refl
lots_after-read_at Side.sell now fill book = refl
lots_after-read_at Side.other_side now fill book = refl

-- The record behind the count of a sale.
abbrev counted : SyncedFill → Book → Reconciled → Reconciled
counted fill book r = record {
  tracker = r.tracker;
  summary = count_sell (match_fill_lots fill (book fill.symbol)).unmatched r.summary;
}

module _ (tax_country : TaxCountry) (buffer : ℤ) where
  insert-found :
      (tracker : List Window) (fill : SyncedFill) (loss : ℕ)
      → leb_ℤ (forward_days tax_country buffer) (pos 0) ≡ false
      → IsTracked tracker fill
      → insert_reconciled_wash_sale tax_country buffer tracker fill loss
        ≡ record { tracker = tracker; inserted = false }
  unfolding insert_reconciled_wash_sale
  insert-found tracker fill loss h found = rw (insert_reconciled_wash_sale, h, found) refl

  after_loss-IsFound :
      (tracker : List Window) (fill : SyncedFill) (loss : ℕ) (r : Reconciled)
      → leb_ℤ (forward_days tax_country buffer) (pos 0) ≡ false
      → IsTracked tracker fill
      → ltb loss_dust loss ≡ true
      → IsFound tracker r
      → IsFound tracker (after_loss tax_country buffer fill loss r)
  unfolding after_loss
  after_loss-IsFound tracker fill loss r h found large (same, none_new, all_old) =
      rw (after_loss, large, same, insert-found tracker fill loss h found)
        (refl, none_new, ap suc all_old)

  after_small :
      (fill : SyncedFill) (loss : ℕ) (r : Reconciled)
      → ltb loss_dust loss ≡ false
      → after_loss tax_country buffer fill loss r ≡ r
  unfolding after_loss
  after_small fill loss r small = rw (after_loss, small) refl

  counts_after-IsFound :
      (tracker : List Window) (side : Side) (now : Moment) (fill : SyncedFill) (book : Book)
      (r : Reconciled) (rest : List SyncedFill)
      → leb_ℤ (forward_days tax_country buffer) (pos 0) ≡ false
      → is_some fill.transaction_time ≡ true
      → All (IsTracked tracker) (sold_at_loss side fill book rest)
      → IsFound tracker r
      → All (IsTracked tracker) rest
        × IsFound tracker (counts_after tax_country buffer side (read_at now fill) book r)
  unfolding match_fill_lots
  counts_after-IsFound tracker Side.buy now fill book r rest h timed all found = (all, found)
  counts_after-IsFound tracker Side.other_side now fill book r rest h timed all found = (all, found)
  counts_after-IsFound tracker Side.sell now fill book r rest h timed all found =
      let loss = (match_fill_lots fill (book fill.symbol)).loss_amount in
      let found' : IsFound tracker (counted fill book r) = found in
      elim (Bool-cases (ltb loss_dust loss)) [
        | inl large ↦
            let all' : All (IsTracked tracker) (fill ∷ rest) = (let a = all in rw large at a) in
            (
              all'.1,
              after_loss-IsFound tracker (read_at now fill) loss (counted fill book r) h
                  (read_at-IsTracked tracker now fill timed all'.0) large found',
            )
        | inr small ↦ (
          (let a = all in rw small at a),
          rw (after_small (read_at now fill) loss (counted fill book r) small) found',
        )
      ]

  -- With no day to block, as behind an overflow, no row is ever inserted.
  after_loss-IsFound_off :
      (tracker : List Window) (fill : SyncedFill) (loss : ℕ) (r : Reconciled)
      → leb_ℤ (forward_days tax_country buffer) (pos 0) ≡ true
      → IsFound tracker r
      → IsFound tracker (after_loss tax_country buffer fill loss r)
  unfolding after_loss insert_reconciled_wash_sale
  after_loss-IsFound_off tracker fill loss r off (same, none_new, all_old) =
      elim (Bool-cases (ltb loss_dust loss)) [
        | inl large ↦
            rw (after_loss, large, same, insert_reconciled_wash_sale, off)
              (refl, none_new, ap suc all_old)
        | inr small ↦ rw (after_small fill loss r small) (same, none_new, all_old)
      ]

  counts_after-IsFound_off :
      (tracker : List Window) (side : Side) (fill : SyncedFill) (book : Book) (r : Reconciled)
      → leb_ℤ (forward_days tax_country buffer) (pos 0) ≡ true
      → IsFound tracker r
      → IsFound tracker (counts_after tax_country buffer side fill book r)
  counts_after-IsFound_off tracker Side.buy fill book r off found = found
  counts_after-IsFound_off tracker Side.other_side fill book r off found = found
  counts_after-IsFound_off tracker Side.sell fill book r off found =
      after_loss-IsFound_off tracker fill (match_fill_lots fill (book fill.symbol)).loss_amount
        (counted fill book r) off found

  loop-IsFound_off :
      (tracker : List Window) (fills : List SyncedFill) (book : Book) (r : Reconciled)
      → leb_ℤ (forward_days tax_country buffer) (pos 0) ≡ true
      → IsFound tracker r
      → IsFound tracker (reconcile_loop tax_country buffer fills book r)
  unfolding reconcile_loop
  loop-IsFound_off tracker [] book r off found = found
  loop-IsFound_off tracker (fill ∷ fills) book r off found =
      loop-IsFound_off tracker fills _ _ off
        (counts_after-IsFound_off tracker fill.side fill book r off found)

  loop-IsFound :
      (tracker : List Window) (now : Moment) (fills : List SyncedFill) (book : Book)
      (r : Reconciled)
      → leb_ℤ (forward_days tax_country buffer) (pos 0) ≡ false
      → All (λ fill. is_some fill.transaction_time ≡ true) fills
      → All (IsTracked tracker) (loss_sales fills book)
      → IsFound tracker r
      → IsFound tracker (reconcile_loop tax_country buffer (map (read_at now) fills) book r)
  unfolding reconcile_loop
  loop-IsFound tracker now [] book r h timed all found = found
  loop-IsFound tracker now (fill ∷ fills) book r h (one, timed) all found =
      let next = counts_after-IsFound tracker fill.side now fill book r _ h one all found in
      subst
        (λ (b : Book). IsFound tracker (
          reconcile_loop tax_country buffer (map (read_at now) fills) b
            (counts_after tax_country buffer fill.side (read_at now fill) book r)))
        (sym (lots_after-read_at fill.side now fill book))
        (loop-IsFound tracker now fills _ _ h timed next.0 next.1)

  -- If every fill's timestamp parses, a second run over the same fills, at whatever time, inserts nothing,
  -- leaves the tracker as the first run left it, and counts every loss sale as one that
  -- is there already.
  pub reconcile_again :
      (fills : List SyncedFill) (tracker : List Window) (now : Moment)
      → All (λ fill. is_some fill.transaction_time ≡ true) fills
      → IsFound (reconcile_wash_sales_for_tax_universe tax_country buffer fills tracker).tracker (
          reconcile_wash_sales_for_tax_universe tax_country buffer
            (map (read_at now) fills)
            (reconcile_wash_sales_for_tax_universe tax_country buffer fills tracker).tracker)
  unfolding reconcile_wash_sales_for_tax_universe
  reconcile_again fills tracker now timed =
      elim (Bool-cases (tax_country_profile tax_country).wash_sale_blocking_enabled) [
        | inl enabled ↦
            let start = at_start fills tracker in
            let once = (reconcile_loop tax_country buffer fills no_lots start).tracker in
            let again = at_start (map (read_at now) fills) once in
            rw (reconcile_wash_sales_for_tax_universe, enabled)
              (elim (Bool-cases (leb_ℤ (forward_days tax_country buffer) (pos 0))) [
                | inl off ↦
                    loop-IsFound_off once (map (read_at now) fills) no_lots again off
                      (refl, refl, refl)
                | inr days ↦
                    loop-IsFound once now fills no_lots again days timed
                      (loop-IsTracked tax_country buffer fills no_lots start days)
                      (refl, refl, refl)
              ])
        | inr disabled ↦ rw (reconcile_wash_sales_for_tax_universe, disabled) (refl, refl, refl)
      ]
