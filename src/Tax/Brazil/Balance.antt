-- ===== src/Tax/Brazil/Balance.antt =====
-- What src/tax.rs `brazil_tax_computation` taxes, exempts and carries on.
use mlai_trade.Common.{
  ℕ, ◌*◌, ◌≡◌, ◌⊎◌, refl, sym, inl, inr, Bool, false, List, [], ◌∷◌, arith, All, Bool-cases,
  if◌then◌else◌, ltb, ◌&&◌,
}
use mlai_trade.Common.Int.{ℤ, pos, ◌+ℤ◌, ◌-ℤ◌, ◌*ℤ◌, ◌≤ℤ◌, ltb_ℤ, int_laws, +ℤ-*ℤ, zero-*ℤ}
use mlai_trade.Tax.Positions.{ClosedPosition}
use mlai_trade.Tax.Brazil.{
  BrazilMonthlyBucket, Month, sorted, Carry, no_carry, carry_on, is_exempt, Carries, tax_month,
  tax_months, BrazilTaxComputation, close_year, brazil_tax_computation,
}
use mlai_trade.Tax.Brazil.Months.{
  is_day_trade, is_normal, is_foreign, pnl_where, sales_in, days_net, gated_net, sales_at,
  own_sales, sort_positions-IsSummed,
}

-- A kind of trade is taxed at its rate, on no negative amount, and carries on no gain.
record IsCarry (rate : ℤ) (c : Carry) : Type 0 where
  pub taxed : pos 0 ≤ℤ c.taxable
  pub carried : pos 0 ≤ℤ c.loss_carry
  pub at_rate : c.tax ≡ c.taxable *ℤ rate

carry_on_net :
    (rate net : ℤ) (c : Carry)
    → (carry_on rate net c).taxable -ℤ (carry_on rate net c).loss_carry
      ≡ c.taxable -ℤ c.loss_carry +ℤ net
unfolding carry_on
carry_on_net rate net c = elim (Bool-cases (ltb_ℤ (pos 0) (net -ℤ c.loss_carry))) [
  | inl e ↦ rw e (omega int_laws)
  | inr e ↦ rw e (omega int_laws)
]

carry_on-IsCarry : (rate net : ℤ) (c : Carry) → IsCarry rate c → IsCarry rate (carry_on rate net c)
unfolding carry_on
carry_on-IsCarry rate net c h = elim (Bool-cases (ltb_ℤ (pos 0) (net -ℤ c.loss_carry))) [
  | inl e ↦
      let k : pos 0 ≤ℤ net -ℤ c.loss_carry = ground arith in
      rw e (record {
        taxed = omega (int_laws, h.taxed);
        carried = omega arith;
        at_rate = rw (+ℤ-*ℤ c.taxable (net -ℤ c.loss_carry) rate, h.at_rate) refl;
      })
  | inr e ↦
      let k : net -ℤ c.loss_carry ≤ℤ pos 0 = ground arith in
      rw e (record { taxed = h.taxed; carried = omega int_laws; at_rate = h.at_rate })
]

-- The normal net of a month is taxed or carried on if its sales are above 20,000 (in billionths of a cent).
abbrev is_above : ℕ → Bool
is_above sales = ltb (20000 * 100 * 1000000000) sales

abbrev above_net : List Month → ℤ
above_net [] = pos 0
above_net (m ∷ ms) =
    (if is_above m.bucket.normal_sales then m.bucket.normal_net else pos 0) +ℤ above_net ms

tax_month_net :
    (b : BrazilMonthlyBucket) (c : Carries)
    → ((tax_month b c).day.taxable -ℤ (tax_month b c).day.loss_carry
        ≡ c.day.taxable -ℤ c.day.loss_carry +ℤ b.day_trade_net)
      × ((tax_month b c).normal.taxable -ℤ (tax_month b c).normal.loss_carry
          ≡ c.normal.taxable
            -ℤ c.normal.loss_carry
            +ℤ (if is_above b.normal_sales then b.normal_net else pos 0))
unfolding tax_month
tax_month_net b c = (
  carry_on_net (pos 2000) b.day_trade_net c.day,
  elim (Bool-cases (is_above b.normal_sales)) [
    | inl above ↦
        let taxed : is_exempt b ≡ false = ground arith in
        rw (above, taxed) (carry_on_net (pos 1500) b.normal_net c.normal)
    | inr below ↦ elim (Bool-cases (is_exempt b)) [
      | inl exempt ↦ rw (below, exempt) (omega int_laws)
      | inr even ↦
          let zero : b.normal_net ≡ pos 0 = ground arith in
          rw (below, even, carry_on_net (pos 1500) b.normal_net c.normal, zero) refl
    ]
  ],
)

tax_months_net :
    (ms : List Month) (c : Carries)
    → ((tax_months ms c).day.taxable -ℤ (tax_months ms c).day.loss_carry
        ≡ c.day.taxable -ℤ c.day.loss_carry +ℤ days_net ms)
      × ((tax_months ms c).normal.taxable -ℤ (tax_months ms c).normal.loss_carry
          ≡ c.normal.taxable -ℤ c.normal.loss_carry +ℤ above_net ms)
unfolding tax_months
tax_months_net [] c = (omega int_laws, omega int_laws)
tax_months_net (m ∷ ms) c =
    let (day, normal) = tax_months_net ms (tax_month m.bucket c) in
    let (day', normal') = tax_month_net m.bucket c in
    (rw (day, day') (omega int_laws), rw (normal, normal') (omega int_laws))

-- The test on the sales of a month is one on its key.
above-gated :
    (g : ℕ → Bool) (ms : List Month)
    → All (λ (m : Month). g m.key ≡ is_above m.bucket.normal_sales) ms
    → above_net ms ≡ gated_net g ms
above-gated g [] h = refl
above-gated g (m ∷ ms) (e, h) = rw (e, above-gated g ms h) refl

above_keys :
    (month_of : ℕ → ℕ) (cs : List ClosedPosition) (all ms : List Month)
    → ((k : ℕ) → sales_at k all ≡ sales_in month_of k cs)
    → All (λ (m : Month). sales_at m.key all ≡ m.bucket.normal_sales) ms
    → All (λ (m : Month). is_above (sales_in month_of m.key cs) ≡ is_above m.bucket.normal_sales) ms
above_keys month_of cs all [] sums h = tt
above_keys month_of cs all (m ∷ ms) sums (e, h) =
    (rw (sym (sums m.key), e) refl, above_keys month_of cs all ms sums h)

record AreCarries (c : Carries) : Type 0 where
  pub day : IsCarry (pos 2000) c.day
  pub normal : IsCarry (pos 1500) c.normal

tax_months-AreCarries :
    (ms : List Month) (c : Carries) → AreCarries c → AreCarries (tax_months ms c)
unfolding tax_months tax_month
tax_months-AreCarries [] c h = h
tax_months-AreCarries (m ∷ ms) c h =
    let day = carry_on-IsCarry (pos 2000) m.bucket.day_trade_net c.day h.day in
    elim (Bool-cases (is_exempt m.bucket)) [
      | inl e ↦ tax_months-AreCarries ms _ (rw e (record { day = day; normal = h.normal }))
      | inr e ↦ tax_months-AreCarries ms _ (
          rw e (record {
            day = day;
            normal = carry_on-IsCarry (pos 1500) m.bucket.normal_net c.normal h.normal;
          }))
    ]

-- The foreign amount and loss of a net.
abbrev foreign_amount : ℤ → ℤ
foreign_amount net = if ltb_ℤ (pos 0) net then net else pos 0

abbrev foreign_loss_of : ℤ → ℤ
foreign_loss_of net = if ltb_ℤ (pos 0) net then pos 0 else pos 0 -ℤ net

foreign_parts :
    (net : ℤ)
    → (pos 0 ≤ℤ foreign_amount net)
      × (pos 0 ≤ℤ foreign_loss_of net)
      × ((if ltb_ℤ (pos 0) net then net *ℤ pos 1500 else pos 0) ≡ foreign_amount net *ℤ pos 1500)
      × (foreign_amount net -ℤ foreign_loss_of net ≡ net)
      × ((foreign_amount net ≡ pos 0) ⊎ (foreign_loss_of net ≡ pos 0))
foreign_parts net = elim (Bool-cases (ltb_ℤ (pos 0) net)) [
  | inl gain ↦
      let k : pos 0 ≤ℤ net = ground arith in
      rw gain (k, omega arith, refl, omega int_laws, inr refl)
  | inr loss ↦
      let k : net ≤ℤ pos 0 = ground arith in
      rw loss (omega arith, omega int_laws, sym (zero-*ℤ (pos 1500)), omega int_laws, inl refl)
]

-- A normal trade in a month whose normal sales are more than 20,000.
abbrev pub is_taxed : (ℕ → ℕ) → List ClosedPosition → ClosedPosition → Bool
is_taxed month_of cs c =
    is_normal c && ltb (20000 * 100 * 1000000000) (sales_in month_of (month_of c.exit_date) cs)

-- Day trades are taxed at 20 %, normal and foreign ones at 15 %; of each kind what is taxed, less a loss that
-- is left over, is the profit of its positions, of the normal ones those in months with sales above 20,000.
pub record IsBrazilTax (month_of : ℕ → ℕ) (cs : List ClosedPosition) (r : BrazilTaxComputation)
    : Type 0 where
  pub day_loss : ℤ
  pub normal_loss : ℤ
  pub foreign_loss : ℤ
  pub day_trade_taxed : pos 0 ≤ℤ r.day_trade_taxable
  pub normal_taxed : pos 0 ≤ℤ r.normal_taxable
  pub foreign_taxed : pos 0 ≤ℤ r.foreign_taxable
  pub day_left : pos 0 ≤ℤ day_loss
  pub normal_left : pos 0 ≤ℤ normal_loss
  pub foreign_left : pos 0 ≤ℤ foreign_loss
  pub day_trade_rate : r.day_trade_tax ≡ r.day_trade_taxable *ℤ pos 2000
  pub normal_rate : r.normal_tax ≡ r.normal_taxable *ℤ pos 1500
  pub foreign_rate : r.foreign_tax ≡ r.foreign_taxable *ℤ pos 1500
  pub day_balance : r.day_trade_taxable -ℤ day_loss ≡ pnl_where is_day_trade cs
  pub normal_balance : r.normal_taxable -ℤ normal_loss ≡ pnl_where (is_taxed month_of cs) cs
  pub foreign_balance : r.foreign_taxable -ℤ foreign_loss ≡ pnl_where is_foreign cs
  pub one_of_foreign : (r.foreign_taxable ≡ pos 0) ⊎ (foreign_loss ≡ pos 0)
  pub loss : r.loss_after_netting ≡ foreign_loss +ℤ (normal_loss +ℤ day_loss)

-- For any positions, day trades are taxed at 20 % and normal and foreign ones at 15 %. Of each of the three
-- kinds the taxed amount less a loss is the profit of its positions, neither is negative, and the three
-- losses are what is left after netting; of the normal trades only those count whose month has normal sales
-- above 20,000. Of the foreign amount and the foreign loss one is zero.
pub brazil_tax_computation-IsBrazilTax :
    (month_of : ℕ → ℕ) (cs : List ClosedPosition)
    → IsBrazilTax month_of cs (brazil_tax_computation month_of cs)
unfolding brazil_tax_computation close_year
brazil_tax_computation-IsBrazilTax month_of cs =
    let before : Carries = record { day = no_carry; normal = no_carry } in
    let ms = (sorted month_of cs).months in
    let foreign = (sorted month_of cs).foreign_net in
    let c : Carries = tax_months ms before in
    let zero_rate : (rate : ℤ) → IsCarry rate no_carry =
      λ rate. record { taxed = omega arith; carried = omega arith; at_rate = sym (zero-*ℤ rate) } in
    let kinds =
      tax_months-AreCarries ms before
        (record { day = zero_rate (pos 2000); normal = zero_rate (pos 1500) }) in
    let sums =
      sort_positions-IsSummed month_of cs (record { months = []; foreign_net = pos 0 }) tt in
    let (day, normal) = tax_months_net ms before in
    let g : ℕ → Bool = λ k. is_above (sales_in month_of k cs) in
    let gated : above_net ms ≡ gated_net g ms = above-gated g ms (
      above_keys month_of cs ms ms (λ k. rw (sums.sales k) (omega arith))
        (own_sales ms sums.ascending)) in
    let abroad = foreign_parts foreign in
    record {
      day_loss = c.day.loss_carry;
      normal_loss = c.normal.loss_carry;
      foreign_loss = foreign_loss_of foreign;
      day_trade_taxed = kinds.day.taxed;
      normal_taxed = kinds.normal.taxed;
      foreign_taxed = abroad.0;
      day_left = kinds.day.carried;
      normal_left = kinds.normal.carried;
      foreign_left = abroad.1;
      day_trade_rate = kinds.day.at_rate;
      normal_rate = kinds.normal.at_rate;
      foreign_rate = abroad.2;
      day_balance = rw (day, sums.days) (omega int_laws);
      normal_balance = rw (normal, gated, sums.normal g) (omega int_laws);
      foreign_balance = rw (abroad.3, sums.foreign) (omega int_laws);
      one_of_foreign = abroad.4;
      loss = refl;
    }
