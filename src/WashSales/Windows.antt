-- ===== src/WashSales/Windows.antt =====
-- One insertion into the tracker of src/auto.rs, and what a run over the fills keeps.
use mlai_trade.Common.{
  same_flag_refl, ℕ, ◌+◌, ◌≤◌, ◌≡◌, refl, ◌⊎◌, inl, inr, Bool, true, false, List, [], ◌∷◌, ◌++◌,
  arith, ltb, any, All, Bool-cases,
}
use mlai_trade.Common.Int.{ℤ, pos, pos_part, leb_ℤ}
use mlai_trade.Tax.Positions.{TaxCountry}
use mlai_trade.Remote.Text.Laws.{same_text_refl}
use mlai_trade.WashSales.{
  Moment, same_moment, Window, Side, SyncedFill, normalize_fill_timestamp_utc, is_window_of,
  wash_sale_window_exists, reconciled_window, forward_days, insert_reconciled_wash_sale, loss_dust,
  match_fill_lots, Book, Reconciled, after_loss, counts_after, reconcile_loop,
}

-- The time that a fill's sale has for the tracker.
abbrev pub sold_at : SyncedFill → Moment
sold_at fill = normalize_fill_timestamp_utc fill.transaction_time fill.utc_now

-- The tracker has the row of this sale.
abbrev pub IsTracked : List Window → SyncedFill → Type 0
IsTracked tracker fill =
    wash_sale_window_exists tracker fill.paper_account fill.symbol (sold_at fill) fill.price ≡ true

-- Active, and with no end before the one that today's rules give.
abbrev pub IsCurrent : ℤ → Window → Type 0
IsCurrent forward w =
    (w.is_active ≡ true) × (w.sell_timestamp_utc.date + pos_part forward ≤ w.wash_window_end)

pub any-append :
    {A : Type 0} (p : A → Bool) (xs ys : List A) → any p xs ≡ true → any p (xs ++ ys) ≡ true
any-append p [] ys h = absurd (ground arith)
any-append p (x ∷ xs) ys h = grind (arith, any-append p xs ys)

pub any-append-last :
    {A : Type 0} (p : A → Bool) (xs : List A) (x : A) → p x ≡ true → any p (xs ++ (x ∷ [])) ≡ true
any-append-last p [] x h = ground arith
any-append-last p (y ∷ xs) x h = grind (arith, any-append-last p xs x h)

pub All-append :
    {A : Type 0} (P : A → Type 0) (xs : List A) (x : A) → All P xs → P x → All P (xs ++ (x ∷ []))
All-append P [] x h p = (p, tt)
All-append P (y ∷ xs) x (q, h) p = (q, All-append P xs x h p)

same_moment_refl : (t : Moment) → same_moment t t ≡ true
same_moment_refl t = ground arith

-- The inserted row is the row that the test looks for.
reconciled_window-is_window_of :
    (fill : SyncedFill) (loss : ℕ) (forward : ℤ)
    → is_window_of fill.paper_account fill.symbol
        (sold_at fill)
        fill.price
        (reconciled_window fill loss (sold_at fill) forward)
      ≡ true
reconciled_window-is_window_of fill loss forward =
    rw
      (
        same_flag_refl fill.paper_account,
        same_text_refl fill.symbol,
        same_moment_refl (sold_at fill),
      )
      (ground arith)

module _ (tax_country : TaxCountry) (buffer : ℤ) where
  abbrev pub added : List Window → SyncedFill → ℕ → List Window
  added tracker fill loss =
      tracker ++ (reconciled_window fill loss (sold_at fill) (forward_days tax_country buffer) ∷ [])

  -- Where the rules block at all, an insertion keeps the tracker, which has the sale, or adds its row.
  pub insert-cases :
      (tracker : List Window) (fill : SyncedFill) (loss : ℕ)
      → leb_ℤ (forward_days tax_country buffer) (pos 0) ≡ false
      → IsTracked tracker fill
          × (insert_reconciled_wash_sale tax_country buffer tracker fill loss
              ≡ record { tracker = tracker; inserted = false })
        ⊎ (insert_reconciled_wash_sale tax_country buffer tracker fill loss
            ≡ record { tracker = added tracker fill loss; inserted = true })
  unfolding insert_reconciled_wash_sale
  insert-cases tracker fill loss h =
      elim (Bool-cases (
        wash_sale_window_exists tracker fill.paper_account fill.symbol (sold_at fill) fill.price)) [
          | inl found ↦ inl (found, rw (insert_reconciled_wash_sale, h, found) refl)
          | inr new ↦ inr (rw (insert_reconciled_wash_sale, h, new) refl)
        ]

  -- A property of trackers that a new row keeps holds behind the insertion.
  insert-keeps :
      (P : List Window → Type 0) (tracker : List Window) (fill : SyncedFill) (loss : ℕ)
      → leb_ℤ (forward_days tax_country buffer) (pos 0) ≡ false
      → (IsTracked tracker fill → P tracker)
      → P (added tracker fill loss)
      → P (insert_reconciled_wash_sale tax_country buffer tracker fill loss).tracker
  insert-keeps P tracker fill loss h same new = elim (insert-cases tracker fill loss h) [
    | inl (found, e) ↦ rw e (same found)
    | inr e ↦ rw e new
  ]

  added-IsTracked :
      (tracker : List Window) (fill : SyncedFill) (loss : ℕ)
      → IsTracked (added tracker fill loss) fill
  unfolding wash_sale_window_exists
  added-IsTracked tracker fill loss =
      any-append-last _ tracker _
        (reconciled_window-is_window_of fill loss (forward_days tax_country buffer))

  -- Behind a loss sale the tracker has its row, has every row that it had, and only current ones if that
  -- holds before.
  pub after_loss-IsTracked :
      (fill : SyncedFill) (loss : ℕ) (r : Reconciled)
      → leb_ℤ (forward_days tax_country buffer) (pos 0) ≡ false
      → ltb loss_dust loss ≡ true
      → IsTracked (after_loss tax_country buffer fill loss r).tracker fill
  unfolding after_loss
  after_loss-IsTracked fill loss r h large =
      rw (after_loss, large)
        (insert-keeps (λ t. IsTracked t fill) r.tracker fill loss h (λ found. found)
          (added-IsTracked r.tracker fill loss))

  after_loss-keeps :
      (P : List Window → Type 0) (fill : SyncedFill) (loss : ℕ) (r : Reconciled)
      → leb_ℤ (forward_days tax_country buffer) (pos 0) ≡ false
      → P r.tracker
      → P (added r.tracker fill loss)
      → P (after_loss tax_country buffer fill loss r).tracker
  unfolding after_loss
  after_loss-keeps P fill loss r h old new = elim (Bool-cases (ltb loss_dust loss)) [
    | inl large ↦ rw (after_loss, large) (insert-keeps P r.tracker fill loss h (λ found. old) new)
    | inr small ↦ rw (after_loss, small) old
  ]

  -- A property of trackers that every added row keeps.
  abbrev pub IsKept : (List Window → Type 0) → Type 0
  IsKept P =
      (tracker : List Window) (fill : SyncedFill) (loss : ℕ)
      → P tracker
      → P (added tracker fill loss)

  counts_after-keeps :
      (P : List Window → Type 0) (side : Side) (fill : SyncedFill) (book : Book) (r : Reconciled)
      → leb_ℤ (forward_days tax_country buffer) (pos 0) ≡ false
      → IsKept P
      → P r.tracker
      → P (counts_after tax_country buffer side fill book r).tracker
  counts_after-keeps P Side.buy fill book r h keep old = old
  counts_after-keeps P Side.sell fill book r h keep old =
      after_loss-keeps P fill (match_fill_lots fill (book fill.symbol)).loss_amount _ h old
        (keep r.tracker fill _ old)
  counts_after-keeps P Side.other_side fill book r h keep old = old

  pub loop-keeps :
      (P : List Window → Type 0) (fills : List SyncedFill) (book : Book) (r : Reconciled)
      → leb_ℤ (forward_days tax_country buffer) (pos 0) ≡ false
      → IsKept P
      → P r.tracker
      → P (reconcile_loop tax_country buffer fills book r).tracker
  unfolding reconcile_loop
  loop-keeps P [] book r h keep old = old
  loop-keeps P (fill ∷ fills) book r h keep old =
      loop-keeps P fills _ _ h keep (counts_after-keeps P fill.side fill book r h keep old)
