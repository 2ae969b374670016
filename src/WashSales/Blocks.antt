-- ===== src/WashSales/Blocks.antt =====
-- The loss sales of a run of src/auto.rs over the fills, and the test that stops a purchase.
use mlai_trade.Common.{
  ℕ, ◌+◌, ◌≤◌, ◌<◌, ◌≡◌, refl, ◌⊎◌, inl, inr, Bool, true, false, List, [], ◌∷◌, if◌then◌else◌,
  arith, ltb, leb, any, All, Bool-cases, some,
}
use mlai_trade.Common.Int.{ℤ, ◌≤ℤ◌, pos, pos_part, leb_ℤ}
use mlai_trade.Tax.Positions.{TaxCountry}
use mlai_trade.Compliance.{tax_country_profile, wash_sale_forward_block_days_for-IsFloored}
use mlai_trade.WashSales.{
  Moment, Window, Side, SyncedFill, is_window_of, wash_sale_window_exists, forward_days, loss_dust,
  match_fill_lots, Book, Reconciled, lots_after, counts_after, no_lots, at_start, reconcile_loop,
  reconcile_wash_sales_for_tax_universe, is_blocking, has_wash_sale_window,
}
use mlai_trade.WashSales.Windows.{
  sold_at, IsTracked, IsCurrent, any-append, All-append, added, after_loss-IsTracked, loop-keeps,
}

-- A buffer with which the days do not overflow an i64, and the days behind a sale of this century end before
-- the year 10000, from which on the texts of dates are not in their order.
abbrev pub dated_buffer : ℤ
dated_buffer = pos 2900000

-- The fills that sell first-in first-out lots at a loss.
abbrev pub sold_at_loss : Side → SyncedFill → Book → List SyncedFill → List SyncedFill
sold_at_loss Side.buy fill book rest = rest
sold_at_loss Side.sell fill book rest =
    if ltb loss_dust (match_fill_lots fill (book fill.symbol)).loss_amount
    then fill ∷ rest
    else rest
sold_at_loss Side.other_side fill book rest = rest

abbrev pub loss_sales : List SyncedFill → Book → List SyncedFill
loss_sales [] book = []
loss_sales (fill ∷ fills) book =
    sold_at_loss fill.side fill book (loss_sales fills (lots_after fill.side fill book))

-- A current row of the sale blocks the symbol to the end of its days.
row-IsBlocking :
    (w : Window) (paper : Bool) (symbol : List ℕ) (t : Moment) (price today : ℕ) (forward : ℤ)
    → IsCurrent forward w
    → today ≤ t.date + pos_part forward
    → is_window_of paper symbol t price w ≡ true
    → is_blocking paper symbol today w ≡ true
row-IsBlocking w paper symbol t price today forward (active, late) h k = ground arith

tracked-any :
    (tracker : List Window) (paper : Bool) (symbol : List ℕ) (t : Moment) (price today : ℕ)
    (forward : ℤ)
    → All (IsCurrent forward) tracker
    → today ≤ t.date + pos_part forward
    → any (is_window_of paper symbol t price) tracker ≡ true
    → any (is_blocking paper symbol today) tracker ≡ true
tracked-any [] paper symbol t price today forward all h k = absurd (ground arith)
tracked-any (w ∷ tracker) paper symbol t price today forward (current, all) h k =
    elim (Bool-cases (is_window_of paper symbol t price w)) [
      | inl is ↦
          let blocks = row-IsBlocking w paper symbol t price today forward current h is in
          rw blocks refl
      | inr other ↦
          let k' = k in
          let rest =
            tracked-any tracker paper symbol t price today forward all h (rw (other) at k') in
          rw rest (ground arith)
    ]

module _ (tax_country : TaxCountry) (buffer : ℤ) where
  IsTracked-kept :
      (sale fill : SyncedFill) (tracker : List Window) (loss : ℕ)
      → IsTracked tracker sale
      → IsTracked (added tax_country buffer tracker fill loss) sale
  unfolding wash_sale_window_exists
  IsTracked-kept sale fill tracker loss h = any-append _ tracker _ h

  -- A fill adds itself to the loss sales only if the tracker has it behind the run.
  head-IsTracked :
      (P : SyncedFill → Type 0) (side : Side) (fill : SyncedFill) (book : Book) (r : Reconciled)
      (rest : List SyncedFill)
      → leb_ℤ (forward_days tax_country buffer) (pos 0) ≡ false
      → (IsTracked (counts_after tax_country buffer side fill book r).tracker fill → P fill)
      → All P rest
      → All P (sold_at_loss side fill book rest)
  head-IsTracked P Side.buy fill book r rest h one all = all
  head-IsTracked P Side.sell fill book r rest h one all =
      elim (Bool-cases (ltb loss_dust (match_fill_lots fill (book fill.symbol)).loss_amount)) [
        | inl large ↦ rw large (one (after_loss-IsTracked tax_country buffer fill _ _ h large), all)
        | inr small ↦ rw small all
      ]
  head-IsTracked P Side.other_side fill book r rest h one all = all

  pub loop-IsTracked :
      (fills : List SyncedFill) (book : Book) (r : Reconciled)
      → leb_ℤ (forward_days tax_country buffer) (pos 0) ≡ false
      → All
          (IsTracked (reconcile_loop tax_country buffer fills book r).tracker)
          (loss_sales fills book)
  unfolding reconcile_loop
  loop-IsTracked [] book r h = tt
  loop-IsTracked (fill ∷ fills) book r h =
      head-IsTracked (IsTracked (reconcile_loop tax_country buffer (fill ∷ fills) book r).tracker)
        fill.side fill book r _ h
        (loop-keeps tax_country buffer (λ t. IsTracked t fill) fills _ _ h
          (λ t f loss old. IsTracked-kept fill f t loss old))
        (loop-IsTracked fills _ _ h)

  loop-IsCurrent :
      (fills : List SyncedFill) (book : Book) (r : Reconciled)
      → leb_ℤ (forward_days tax_country buffer) (pos 0) ≡ false
      → All (IsCurrent (forward_days tax_country buffer)) r.tracker
      → All
          (IsCurrent (forward_days tax_country buffer))
          (reconcile_loop tax_country buffer fills book r).tracker
  loop-IsCurrent fills book r h current =
      loop-keeps tax_country buffer (All (IsCurrent (forward_days tax_country buffer))) fills book r
        h (λ t fill loss old. All-append _ t _ old (refl, omega arith)) current

  tracked-blocks :
      (tracker : List Window) (fill : SyncedFill) (today : ℕ)
      → (tax_country_profile tax_country).wash_sale_blocking_enabled ≡ true
      → All (IsCurrent (forward_days tax_country buffer)) tracker
      → today ≤ (sold_at fill).date + pos_part (forward_days tax_country buffer)
      → IsTracked tracker fill
      → has_wash_sale_window tax_country tracker fill.paper_account fill.symbol today ≡ true
  unfolding has_wash_sale_window wash_sale_window_exists
  tracked-blocks tracker fill today enabled current h k =
      rw (has_wash_sale_window, enabled)
        (tracked-any tracker fill.paper_account fill.symbol (sold_at fill) fill.price today
          (forward_days tax_country buffer) current h k)

  -- A sale at a loss keeps its symbol from being bought to the end of its days.
  abbrev pub IsBlocked : List Window → ℕ → SyncedFill → Type 0
  IsBlocked tracker today fill =
      ((sold_at fill).date + pos_part (forward_days tax_country buffer) < today)
      ⊎ (has_wash_sale_window tax_country tracker fill.paper_account fill.symbol today ≡ true)

  tracked-IsBlocked :
      (sales : List SyncedFill) (tracker : List Window) (today : ℕ)
      → (tax_country_profile tax_country).wash_sale_blocking_enabled ≡ true
      → All (IsCurrent (forward_days tax_country buffer)) tracker
      → All (IsTracked tracker) sales
      → All (IsBlocked tracker today) sales
  tracked-IsBlocked [] tracker today enabled current h = tt
  tracked-IsBlocked (sale ∷ sales) tracker today enabled current (k, h) = (
    elim (Bool-cases
        (leb today ((sold_at sale).date + pos_part (forward_days tax_country buffer)))) [
          | inl within ↦ inr (tracked-blocks tracker sale today enabled current (ground arith) k)
          | inr over ↦ inl (ground arith)
        ],
    tracked-IsBlocked sales tracker today enabled current h,
  )

  pub enabled_days :
      (tax_country_profile tax_country).wash_sale_blocking_enabled ≡ true
      → buffer ≤ℤ dated_buffer
      → leb_ℤ (forward_days tax_country buffer) (pos 0) ≡ false
  enabled_days enabled small =
      ground
        (arith, wash_sale_forward_block_days_for-IsFloored tax_country (some buffer) (omega arith))

  -- In a country with the rule, with a buffer of at most 2,900,000 days and from a tracker whose rows are active and end no earlier than today's rules
  -- say, a run over the fills leaves such a tracker, and every fill that sold first-in first-out lots at a
  -- loss keeps its symbol from being bought in its tax universe until its days are over.
  pub reconcile-IsBlocked :
      (fills : List SyncedFill) (tracker : List Window) (today : ℕ)
      → (tax_country_profile tax_country).wash_sale_blocking_enabled ≡ true
      → buffer ≤ℤ dated_buffer
      → All (IsCurrent (forward_days tax_country buffer)) tracker
      → All
          (IsCurrent (forward_days tax_country buffer))
          (reconcile_wash_sales_for_tax_universe tax_country buffer fills tracker).tracker
        × All
            (IsBlocked
              (reconcile_wash_sales_for_tax_universe tax_country buffer fills tracker).tracker
              today)
            (loss_sales fills (no_lots))
  unfolding reconcile_wash_sales_for_tax_universe
  reconcile-IsBlocked fills tracker today enabled small current =
      let days = enabled_days enabled small in
      let start = at_start fills tracker in
      let current' = loop-IsCurrent fills no_lots start days current in
      rw (reconcile_wash_sales_for_tax_universe, enabled)
        (
          current',
          tracked-IsBlocked (loss_sales fills no_lots)
              (reconcile_loop tax_country buffer fills no_lots start).tracker today enabled current'
              (loop-IsTracked fills no_lots start days),
        )
