-- ===== src/Tax/Netting/Balance.antt =====
-- What the netting and the totals of src/tax.rs keep.
use mlai_trade.Common.{
  ◌+◌, ◌≡◌, refl, ◌⊎◌, inl, inr, List, [], ◌∷◌, arith, Bool-cases, true, false, Bool, length,
}
use mlai_trade.Common.Int.{
  ℤ, pos, ◌+ℤ◌, ◌≤ℤ◌, leb_ℤ, ltb_ℤ, min_ℤ, max_ℤ, int_laws, parts_of_eq, max_ℤ_left, max_ℤ_right,
  min_ℤ_left, min_ℤ_right,
}
use mlai_trade.Tax.Positions.{ClosedPosition, TaxCountry}
use mlai_trade.Tax.Netting.{
  TermTotals, add_to_totals, Totals, add_term, is_long_term, totals_of, TaxableNetting, net_taxable,
}

abbrev pub IsNetted : ℤ → ℤ → TaxableNetting → Type 0
IsNetted short_net long_net n =
    (pos 0 ≤ℤ n.taxable_short_term)
    × (pos 0 ≤ℤ n.taxable_long_term)
    × (n.capital_loss_after_netting ≤ℤ pos 0)
    × ((n.capital_loss_after_netting ≡ pos 0)
        ⊎ ((n.taxable_short_term ≡ pos 0) × (n.taxable_long_term ≡ pos 0)))
    × (n.taxable_short_term +ℤ n.taxable_long_term +ℤ n.capital_loss_after_netting
        ≡ short_net +ℤ long_net)

ltb_of : (a : ℤ) → leb_ℤ (pos 0) a ≡ false → ltb_ℤ a (pos 0) ≡ true
ltb_of a h = ground arith

-- One net is a gain and the other a loss.
abbrev split_net : ℤ → TaxableNetting
split_net net = record {
  taxable_short_term = max_ℤ net (pos 0);
  taxable_long_term = pos 0;
  capital_loss_after_netting = min_ℤ net (pos 0);
}

one_sided : (a b : ℤ) → IsNetted a b (split_net (a +ℤ b))
one_sided a b = elim (Bool-cases (leb_ℤ (a +ℤ b) (pos 0))) [
  | inl low ↦
      let k : a +ℤ b ≤ℤ pos 0 = ground arith in
      rw (max_ℤ_right (a +ℤ b) (pos 0) k, min_ℤ_left (a +ℤ b) (pos 0) k)
        (omega arith, omega arith, k, inr (refl, refl), omega int_laws)
  | inr high ↦
      let k : pos 0 ≤ℤ a +ℤ b = ground arith in
      rw (max_ℤ_left (a +ℤ b) (pos 0) k, min_ℤ_right (a +ℤ b) (pos 0) k)
        (k, omega arith, omega arith, inl refl, omega int_laws)
]

other_sided :
    (a b : ℤ)
    → IsNetted b a (record {
      taxable_short_term = pos 0;
      taxable_long_term = max_ℤ (a +ℤ b) (pos 0);
      capital_loss_after_netting = min_ℤ (a +ℤ b) (pos 0);
    })
other_sided a b =
    let (short, long, loss, either, sum) = one_sided a b in
    (
      long,
      short,
      loss,
      elim either [ inl e ↦ inl e | inr e ↦ inr (e.1, e.0) ],
      omega (int_laws, parts_of_eq _ _ sum),
    )

-- What is taxed is not negative and what is lost not positive, a loss is left only when nothing is
-- taxed, and the three add up to the two nets.
net_taxable_balance :
    (short_net long_net : ℤ) → IsNetted short_net long_net (net_taxable short_net long_net)
unfolding net_taxable
net_taxable_balance short_net long_net = elim (Bool-cases (leb_ℤ (pos 0) short_net)) [
  | inl s ↦ elim (Bool-cases (leb_ℤ (pos 0) long_net)) [
    | inl l ↦
        let ks : pos 0 ≤ℤ short_net = ground arith in
        let kl : pos 0 ≤ℤ long_net = ground arith in
        rw (s, l) (ks, kl, omega arith, inl refl, omega int_laws)
    | inr l ↦ rw (s, l, ltb_of long_net l) (one_sided short_net long_net)
  ]
  | inr s ↦ elim (Bool-cases (leb_ℤ (pos 0) long_net)) [
    | inl l ↦ rw (s, l, ltb_of short_net s) (other_sided long_net short_net)
    | inr l ↦
        let ks : short_net ≤ℤ pos 0 = ground arith in
        let kl : long_net ≤ℤ pos 0 = ground arith in
        rw (s, l, ltb_of short_net s)
          (omega arith, omega arith, omega int_laws, inr (refl, refl), omega int_laws)
  ]
]

-- The net of a term is its gains and losses together.
pub record IsBalanced (t : TermTotals) : Type 0 where
  pub gains : pos 0 ≤ℤ t.gains
  pub losses : t.losses ≤ℤ pos 0
  pub net : t.net ≡ t.gains +ℤ t.losses

add_to_totals-IsBalanced :
    (t : TermTotals) (pnl : ℤ) → IsBalanced t → IsBalanced (add_to_totals t pnl)
unfolding add_to_totals
add_to_totals-IsBalanced t pnl h = elim (Bool-cases (leb_ℤ (pos 0) pnl)) [
  | inl gain ↦
      let k : pos 0 ≤ℤ pnl = ground arith in
      rw gain (record {
        gains = omega (int_laws, h.gains);
        losses = h.losses;
        net = rw h.net (omega int_laws);
      })
  | inr loss ↦
      let k : pnl ≤ℤ pos 0 = ground arith in
      rw loss (record {
        gains = h.gains;
        losses = omega (int_laws, h.losses);
        net = rw h.net (omega int_laws);
      })
]

-- The sum of the profits, and the totals' nets, of both terms.
abbrev pub total_pnl : List ClosedPosition → ℤ
total_pnl [] = pos 0
total_pnl (c ∷ cs) = c.pnl +ℤ total_pnl cs

abbrev pub net_of : Totals → ℤ
net_of t = t.short_term.net +ℤ t.long_term.net

-- Both terms stay balanced, their nets grow by the profits and their counts by the positions.
pub record IsTotalled (before after : Totals) (cs : List ClosedPosition) : Type 0 where
  pub short_balance : IsBalanced after.short_term
  pub long_balance : IsBalanced after.long_term
  pub nets : net_of after ≡ net_of before +ℤ total_pnl cs
  pub counts :
      after.short_term.count + after.long_term.count
      ≡ before.short_term.count + before.long_term.count + length cs

add_term_lem :
    (long : Bool) (c : ClosedPosition) (t : Totals)
    → IsBalanced t.short_term
    → IsBalanced t.long_term
    → IsTotalled t (add_term long c.pnl t) (c ∷ [])
unfolding add_to_totals
add_term_lem true c t s l = record {
  short_balance = s;
  long_balance = add_to_totals-IsBalanced t.long_term c.pnl l;
  nets = omega int_laws;
  counts = omega arith;
}
add_term_lem false c t s l = record {
  short_balance = add_to_totals-IsBalanced t.short_term c.pnl s;
  long_balance = l;
  nets = omega int_laws;
  counts = omega arith;
}

-- In every country and from balanced totals, any positions leave balanced totals, whose nets have grown by the sum of the
-- profits and whose counts have grown by the number of the positions.
totals_of-IsTotalled :
    (country : TaxCountry) (cs : List ClosedPosition) (t : Totals)
    → IsBalanced t.short_term
    → IsBalanced t.long_term
    → IsTotalled t (totals_of country cs t) cs
unfolding totals_of
totals_of-IsTotalled country [] t s l = record {
  short_balance = s;
  long_balance = l;
  nets = omega int_laws;
  counts = omega arith;
}
totals_of-IsTotalled country (c ∷ cs) t s l =
    let one = add_term_lem (is_long_term country c) c t s l in
    let rest = totals_of-IsTotalled country cs _ one.short_balance one.long_balance in
    record {
      short_balance = rest.short_balance;
      long_balance = rest.long_balance;
      nets = omega (int_laws, parts_of_eq _ _ one.nets, parts_of_eq _ _ rest.nets);
      counts = omega (arith, one.counts, rest.counts);
    }
