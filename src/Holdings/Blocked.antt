-- ===== src/Holdings/Blocked.antt =====
-- src/auto.rs: the wash-sale windows of the exits that the reconciliation finds.
use mlai_trade.Common.{
  ℕ, ◌+◌, ◌-◌, ◌*◌, ◌≤◌, ◌<◌, ◌≡◌, refl, inl, inr, Bool, true, false, ◌||◌, Option, none, some,
  List, [], ◌∷◌, if◌then◌else◌, arith, ltb, leb, any, All, Bool-cases, same_flag_refl, Option-cases,
}
use mlai_trade.Common.Int.{ℤ, ◌≤ℤ◌, pos, pos_part, leb_ℤ}
use mlai_trade.Compliance.{tax_country_profile}
use mlai_trade.Remote.Text.Laws.{same_text_refl}
use mlai_trade.Tax.Positions.{TaxCountry}
use mlai_trade.WashSales.{
  Moment, Window, WashSaleRecord, normalize_fill_timestamp_utc, forward_days, recorded_window,
  record_wash_sale, is_blocking, has_wash_sale_window,
}
use mlai_trade.WashSales.Windows.{any-append, any-append-last}
use mlai_trade.WashSales.Blocks.{dated_buffer, enabled_days}
use mlai_trade.Holdings.{
  share, OpenAutoPosition, ProviderExitFill, World, State, exit_record, record_exit, absent,
  split_off, reconcile_position, reconcile_loop, reconcile_open_positions_with_provider,
}
use mlai_trade.Holdings.Turns.{shares_of, whole_shares}

module _ (country : TaxCountry) (buffer : ℤ) where
  record-any :
      (q : Window → Bool) (tracker : List Window) (exit : WashSaleRecord)
      → any q tracker ≡ true
      → any q (record_wash_sale country buffer tracker exit) ≡ true
  unfolding record_wash_sale
  record-any q tracker exit h = elim (Bool-cases (leb_ℤ (forward_days country buffer) (pos 0))) [
    | inl unruled ↦ rw (record_wash_sale, unruled) h
    | inr ruled ↦ elim (Bool-cases (ltb exit.sell_price exit.entry_price)) [
      | inl loss ↦ rw (record_wash_sale, ruled, loss) (any-append q tracker _ h)
      | inr gain ↦ rw (record_wash_sale, ruled, gain) h
    ]
  ]

  row-IsBlocking :
      (exit : WashSaleRecord) (t : Moment) (today : ℕ)
      → today ≤ t.date + pos_part (forward_days country buffer)
      → is_blocking exit.paper_account exit.symbol today
          (recorded_window exit t (forward_days country buffer))
        ≡ true
  row-IsBlocking exit t today h =
      let late : leb today (t.date + pos_part (forward_days country buffer)) ≡ true =
        ground arith in
      rw (same_text_refl exit.symbol, late, same_flag_refl exit.paper_account) refl

  record-blocks :
      (tracker : List Window) (exit : WashSaleRecord) (today : ℕ)
      → leb_ℤ (forward_days country buffer) (pos 0) ≡ false
      → exit.sell_price < exit.entry_price
      → today
        ≤ (normalize_fill_timestamp_utc exit.timestamp_utc exit.utc_now).date
          + pos_part (forward_days country buffer)
      → any
          (is_blocking exit.paper_account exit.symbol today)
          (record_wash_sale country buffer tracker exit)
        ≡ true
  unfolding record_wash_sale
  record-blocks tracker exit today ruled h k =
      let loss : ltb exit.sell_price exit.entry_price ≡ true = ground arith in
      rw (record_wash_sale, ruled, loss)
        (any-append-last _ tracker _ (
          row-IsBlocking exit (normalize_fill_timestamp_utc exit.timestamp_utc exit.utc_now) today
            k))

-- The provider has fewer shares than the position.
abbrev is_fewer : World → OpenAutoPosition → Bool
is_fewer w p = ltb (shares_of w p) share || ltb (shares_of w p) (p.shares * share)

abbrev recorded : World → OpenAutoPosition → Option ProviderExitFill → List Window → List Window
recorded w p none tracker = tracker
recorded w p (some fill) tracker =
    record_wash_sale w.tax_country w.safety_buffer_days tracker (exit_record w p fill)

absent-tracker :
    (w : World) (p : OpenAutoPosition) (exit : Option ProviderExitFill) (unfilled : Bool)
    (s : State)
    → (absent w p exit unfilled s).wash_sale_tracker ≡ recorded w p exit s.wash_sale_tracker
unfolding absent record_exit
absent-tracker w p none true s = refl
absent-tracker w p none false s = refl
absent-tracker w p (some fill) unfilled s = refl

split_off-tracker :
    (w : World) (p : OpenAutoPosition) (n : ℕ) (exit : Option ProviderExitFill) (s : State)
    → (split_off w p n exit s).wash_sale_tracker ≡ recorded w p exit s.wash_sale_tracker
unfolding split_off record_exit
split_off-tracker w p n none s = refl
split_off-tracker w p n (some fill) s = refl

-- A turn records the exit it finds where the provider has fewer shares, and nothing elsewhere.
step-tracker :
    (w : World) (p : OpenAutoPosition) (s : State)
    → (reconcile_position w p s).wash_sale_tracker ≡ (
        if is_fewer w p
        then recorded w p (w.latest_provider_sell_exit p) s.wash_sale_tracker
        else s.wash_sale_tracker)
unfolding reconcile_position
step-tracker w p s = elim (Bool-cases (ltb (shares_of w p) share)) [
  | inl gone ↦ rw (reconcile_position, gone) (absent-tracker w p _ _ s)
  | inr held ↦ elim (Bool-cases (ltb (shares_of w p) (p.shares * share))) [
    | inl fewer ↦
        let sold : ltb 0 (p.shares - whole_shares w p) ≡ true = ground arith in
        rw (reconcile_position, held, fewer, sold) (split_off-tracker w p _ _ s)
    | inr no_fewer ↦ elim (Bool-cases (ltb (p.shares * share) (shares_of w p))) [
      | inl more ↦ rw (reconcile_position, held, no_fewer, more) refl
      | inr same ↦ rw (reconcile_position, held, no_fewer, same) refl
    ]
  ]
]

recorded-any :
    (q : Window → Bool) (w : World) (p : OpenAutoPosition) (exit : Option ProviderExitFill)
    (tracker : List Window)
    → any q tracker ≡ true
    → any q (recorded w p exit tracker) ≡ true
recorded-any q w p none tracker h = h
recorded-any q w p (some fill) tracker h =
    record-any w.tax_country w.safety_buffer_days q tracker (exit_record w p fill) h

step-any :
    (q : Window → Bool) (w : World) (p : OpenAutoPosition) (s : State)
    → any q s.wash_sale_tracker ≡ true
    → any q (reconcile_position w p s).wash_sale_tracker ≡ true
step-any q w p s h = elim (Bool-cases (is_fewer w p)) [
  | inl fewer ↦
      rw (step-tracker w p s, fewer)
        (recorded-any q w p (w.latest_provider_sell_exit p) s.wash_sale_tracker h)
  | inr no_fewer ↦ rw (step-tracker w p s, no_fewer) h
]

loop-any :
    (q : Window → Bool) (w : World) (ps : List OpenAutoPosition) (s : State)
    → any q s.wash_sale_tracker ≡ true
    → any q (reconcile_loop w ps s).wash_sale_tracker ≡ true
unfolding reconcile_loop
loop-any q w [] s h = h
loop-any q w (p ∷ ps) s h = loop-any q w ps (reconcile_position w p s) (step-any q w p s h)

-- The last day that a loss sale of this fill blocks.
abbrev pub last_day : World → ProviderExitFill → ℕ
last_day w fill =
    (normalize_fill_timestamp_utc fill.timestamp w.now).date
    + pos_part (forward_days w.tax_country w.safety_buffer_days)

-- The provider has no fewer shares, no exit is found, it made no loss, its days are over, or the symbol must
-- not be bought.
pub data ExitBlocked (w : World) (tracker : List Window) (today : ℕ) (p : OpenAutoPosition)
    : Type 0 where
  no_fewer : p.shares * share ≤ shares_of w p → ExitBlocked w tracker today p
  no_exit : w.latest_provider_sell_exit p ≡ none → ExitBlocked w tracker today p
  no_loss :
      (fill : ProviderExitFill)
      → w.latest_provider_sell_exit p ≡ some fill
      → p.entry_price ≤ fill.price
      → ExitBlocked w tracker today p
  over :
      (fill : ProviderExitFill)
      → w.latest_provider_sell_exit p ≡ some fill
      → last_day w fill < today
      → ExitBlocked w tracker today p
  blocked :
      has_wash_sale_window w.tax_country tracker w.account.is_paper p.symbol today ≡ true
      → ExitBlocked w tracker today p

found-window :
    (w : World) (p : OpenAutoPosition) (tracker : List Window) (today : ℕ)
    → (tax_country_profile w.tax_country).wash_sale_blocking_enabled ≡ true
    → any (is_blocking w.account.is_paper p.symbol today) tracker ≡ true
    → has_wash_sale_window w.tax_country tracker w.account.is_paper p.symbol today ≡ true
unfolding has_wash_sale_window
found-window w p tracker today enabled h = rw (has_wash_sale_window, enabled) h

head-ExitBlocked :
    (w : World) (p : OpenAutoPosition) (ps : List OpenAutoPosition) (s : State) (today : ℕ)
    → (tax_country_profile w.tax_country).wash_sale_blocking_enabled ≡ true
    → w.safety_buffer_days ≤ℤ dated_buffer
    → ExitBlocked w (reconcile_loop w ps (reconcile_position w p s)).wash_sale_tracker today p
head-ExitBlocked w p ps s today enabled small =
    elim (Option-cases (w.latest_provider_sell_exit p)) [
      | inl missing ↦ ExitBlocked.no_exit missing
      | inr (fill, found) ↦ elim (Bool-cases (is_fewer w p)) [
        | inr enough ↦ ExitBlocked.no_fewer (ground (arith, enough))
        | inl fewer ↦ elim (Bool-cases (ltb fill.price p.entry_price)) [
          | inr gain ↦ ExitBlocked.no_loss fill found (ground arith)
          | inl loss ↦ elim (Bool-cases (leb today (last_day w fill))) [
            | inr late ↦ ExitBlocked.over fill found (ground arith)
            | inl within ↦ ExitBlocked.blocked (
                found-window w p _ today enabled (
                  loop-any (is_blocking w.account.is_paper p.symbol today) w ps _ (
                    rw (step-tracker w p s, fewer, found)
                      (record-blocks w.tax_country w.safety_buffer_days s.wash_sale_tracker
                        (exit_record w p fill) today
                        (enabled_days w.tax_country w.safety_buffer_days enabled small)
                        (ground (arith, loss)) (ground (arith, within))))))
          ]
        ]
      ]
    ]

loop-ExitBlocked :
    (w : World) (ps : List OpenAutoPosition) (s : State) (today : ℕ)
    → (tax_country_profile w.tax_country).wash_sale_blocking_enabled ≡ true
    → w.safety_buffer_days ≤ℤ dated_buffer
    → All (ExitBlocked w (reconcile_loop w ps s).wash_sale_tracker today) ps
unfolding reconcile_loop
loop-ExitBlocked w [] s today enabled small = tt
loop-ExitBlocked w (p ∷ ps) s today enabled small = (
  head-ExitBlocked w p ps s today enabled small,
  loop-ExitBlocked w ps (reconcile_position w p s) today enabled small,
)

-- In a country with the rule, with a buffer of at most 2,900,000 days, a position of which the provider has fewer shares keeps its symbol from being
-- bought behind the reconciliation until the days of the exit are over, if an exit is found and made a loss.
pub reconcile-ExitBlocked :
    (w : World) (positions : List OpenAutoPosition) (s : State) (today : ℕ)
    → (tax_country_profile w.tax_country).wash_sale_blocking_enabled ≡ true
    → w.safety_buffer_days ≤ℤ dated_buffer
    → All
        (ExitBlocked w
          (reconcile_open_positions_with_provider w positions s).wash_sale_tracker
          today)
        positions
unfolding reconcile_open_positions_with_provider
reconcile-ExitBlocked w positions s today enabled small =
    loop-ExitBlocked w positions (record s { kept = [] }) today enabled small
