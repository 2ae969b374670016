-- ===== src/Tax/ShareMatching/Rules.antt =====
-- The identification rules in the UK share matching of src/tax.rs.
use mlai_trade.Common.{
  ℕ, ◌+◌, ◌≤◌, ◌<◌, ◌≡◌, refl, subst, ◌⊎◌, inl, inr, List, [], ◌∷◌, ◌++◌, arith, Bool, true, false,
  Bool-cases, leb, ltb, All, ◌||◌,
}
use mlai_trade.Tax.Positions.{ClosedPosition, Period, dust, in_period}
use mlai_trade.Tax.ShareLots.{
  MatchBuyLot, MatchSellLot, Section104Pool, MatchedPosition, Rule, same_day, thirty_day,
  takes_from, push_matched_position, match_one, match_buy_lots_to_sell,
}
use mlai_trade.Tax.ShareMatching.{
  GbState, is_open_on, match_sale, match_sales, match_section104_pool_to_sell, match_pool,
  pool_lots, pool_sales, match_date, match_dates, sort_buys, sort_sells, match_key, open_dates,
}

-- The dates that the rule of a position's source asks for.
abbrev pub HasRuleDates : ClosedPosition → Type 0
HasRuleDates c =
    ((c.source ≡ "hmrc_same_day") × (c.entry_date ≡ c.exit_date))
    ⊎ ((c.source ≡ "hmrc_30_day")
        × (c.exit_date < c.entry_date)
        × (c.entry_date ≤ c.exit_date + 30))
    ⊎ ((c.source ≡ "hmrc_section_104") × (c.entry_date ≡ c.exit_date))

-- A position that may be reported for the period.
pub record IsIdentified (period : Period) (c : ClosedPosition) : Type 0 where
  pub rule_dates : HasRuleDates c
  pub exit_in_period : in_period period c.exit_date ≡ true
  pub above_dust : dust < c.qty

All-append :
    (period : Period) (xs ys : List ClosedPosition)
    → All (IsIdentified period) xs
    → All (IsIdentified period) ys
    → All (IsIdentified period) (xs ++ ys)
All-append period [] ys h k = k
All-append period (x ∷ xs) ys (h, hs) k = (h, All-append period xs ys hs k)

-- The rule asks of its lots what it is named for.
abbrev IsHmrcRule : Rule → Type 0
IsHmrcRule rule =
    (buy : MatchBuyLot) (date : ℕ)
    → rule.predicate buy date ≡ true
    → ((rule.source ≡ "hmrc_same_day") × (buy.date ≡ date))
      ⊎ ((rule.source ≡ "hmrc_30_day") × (date < buy.date) × (buy.date ≤ date + 30))

same_day-IsHmrcRule : IsHmrcRule same_day
same_day-IsHmrcRule buy date h = inl (refl, ground arith)

thirty_day-IsHmrcRule : IsHmrcRule thirty_day
thirty_day-IsHmrcRule buy date h = inr (refl, ground arith, ground arith)

module _ (period : Period) where
  push_IsIdentified :
      (ps : List ClosedPosition) (sell : MatchSellLot) (m : MatchedPosition)
      → ((m.source ≡ "hmrc_same_day") × (m.entry_date ≡ sell.date))
        ⊎ ((m.source ≡ "hmrc_30_day")
            × (sell.date < m.entry_date)
            × (m.entry_date ≤ sell.date + 30))
        ⊎ ((m.source ≡ "hmrc_section_104") × (m.entry_date ≡ sell.date))
      → All (IsIdentified period) ps
      → All (IsIdentified period) (push_matched_position period ps sell m)
  unfolding push_matched_position
  push_IsIdentified ps sell m dates h =
      elim (Bool-cases (ltb sell.date period.start || ltb period.end sell.date || leb m.qty dust)) [
        | inl e ↦ rw e h
        | inr e ↦ rw e (
            All-append period ps _ h (
              record {
                rule_dates = dates;
                exit_in_period = ground arith;
                above_dust = ground arith;
              },
              tt,
            ))
      ]

  match_one-IsIdentified :
      (rule : Rule) (buy : MatchBuyLot) (sell : MatchSellLot) (ps : List ClosedPosition)
      → IsHmrcRule rule
      → All (IsIdentified period) ps
      → All (IsIdentified period) (match_one period rule buy sell ps).positions
  unfolding match_one
  match_one-IsIdentified rule buy sell ps r h = elim (Bool-cases (takes_from rule buy sell)) [
    | inl e ↦
        let ruled : rule.predicate buy sell.date ≡ true = ground arith in
        rw e (
          push_IsIdentified ps _ _
            (elim (r buy sell.date ruled) [ inl d ↦ inl d | inr d ↦ inr (inl d) ]) h)
    | inr e ↦ rw e h
  ]

  match_lots-IsIdentified :
      (rule : Rule) (buys : List MatchBuyLot) (sell : MatchSellLot) (ps : List ClosedPosition)
      → IsHmrcRule rule
      → All (IsIdentified period) ps
      → All (IsIdentified period) (match_buy_lots_to_sell period rule buys sell ps).positions
  unfolding match_buy_lots_to_sell
  match_lots-IsIdentified rule [] sell ps r h = h
  match_lots-IsIdentified rule (buy ∷ buys) sell ps r h =
      match_lots-IsIdentified rule buys _ _ r (match_one-IsIdentified rule buy sell ps r h)

  match_sale-IsIdentified :
      (rule : Rule) (wanted : Bool) (buys : List MatchBuyLot) (sell : MatchSellLot)
      (ps : List ClosedPosition)
      → IsHmrcRule rule
      → All (IsIdentified period) ps
      → All (IsIdentified period) (match_sale period rule wanted buys sell ps).positions
  match_sale-IsIdentified rule true buys sell ps r h = match_lots-IsIdentified rule buys sell ps r h
  match_sale-IsIdentified rule false buys sell ps r h = h

  match_sales-IsIdentified :
      (rule : Rule) (wanted : MatchSellLot → Bool) (sells : List MatchSellLot)
      (buys : List MatchBuyLot) (pool : Section104Pool) (ps : List ClosedPosition)
      → IsHmrcRule rule
      → All (IsIdentified period) ps
      → All (IsIdentified period) (match_sales period rule wanted sells buys pool ps).positions
  unfolding match_sales
  match_sales-IsIdentified rule wanted [] buys pool ps r h = h
  match_sales-IsIdentified rule wanted (sell ∷ sells) buys pool ps r h =
      match_sales-IsIdentified rule wanted sells _ pool _ r
        (match_sale-IsIdentified rule (wanted sell) buys sell ps r h)

  match_pool-IsIdentified :
      (wanted : Bool) (pool : Section104Pool) (sell : MatchSellLot) (ps : List ClosedPosition)
      → All (IsIdentified period) ps
      → All (IsIdentified period) (match_pool period wanted pool sell ps).positions
  unfolding match_section104_pool_to_sell
  match_pool-IsIdentified true pool sell ps h =
      elim (Bool-cases (leb pool.qty dust || leb sell.qty_remaining dust)) [
        | inl e ↦ rw e h
        | inr e ↦ rw e (push_IsIdentified ps _ _ (inr (inr (refl, refl))) h)
      ]
  match_pool-IsIdentified false pool sell ps h = h

  pool_sales-IsIdentified :
      (wanted : MatchSellLot → Bool) (sells : List MatchSellLot) (buys : List MatchBuyLot)
      (pool : Section104Pool) (ps : List ClosedPosition)
      → All (IsIdentified period) ps
      → All (IsIdentified period) (pool_sales period wanted sells buys pool ps).positions
  unfolding pool_sales
  pool_sales-IsIdentified wanted [] buys pool ps h = h
  pool_sales-IsIdentified wanted (sell ∷ sells) buys pool ps h =
      pool_sales-IsIdentified wanted sells buys _ _
        (match_pool-IsIdentified (wanted sell) pool sell ps h)

  match_date-IsIdentified :
      (date : ℕ) (s : GbState)
      → All (IsIdentified period) s.positions
      → All (IsIdentified period) (match_date period date s).positions
  unfolding match_date
  match_date-IsIdentified date s h =
      let later =
        match_sales period thirty_day (is_open_on date) s.sells s.buys s.pool s.positions in
      let p = pool_lots date later.buys later.pool in
      pool_sales-IsIdentified (is_open_on date) later.sells p.buys p.pool later.positions (
        match_sales-IsIdentified thirty_day (is_open_on date) s.sells s.buys s.pool s.positions
          thirty_day-IsHmrcRule h)

  match_dates-IsIdentified :
      (dates : List ℕ) (s : GbState)
      → All (IsIdentified period) s.positions
      → All (IsIdentified period) (match_dates period dates s).positions
  unfolding match_dates
  match_dates-IsIdentified [] s h = h
  match_dates-IsIdentified (date ∷ dates) s h =
      match_dates-IsIdentified dates _ (match_date-IsIdentified date s h)

  -- Every position that the matching of a key adds closes within the period with more than the dust,
  -- and its dates are those of the rule that it names.
  match_key-IsIdentified :
      (buys : List MatchBuyLot) (sells : List MatchSellLot) (ps : List ClosedPosition)
      → All (IsIdentified period) ps
      → All (IsIdentified period) (match_key period buys sells ps).positions
  unfolding match_key
  match_key-IsIdentified buys sells ps h =
      let pool : Section104Pool = record { qty = 0; cost = 0 } in
      let first =
        match_sales period same_day (λ sell. true) (sort_sells sells) (sort_buys buys) pool ps in
      match_dates-IsIdentified (open_dates first.sells) first (
        match_sales-IsIdentified same_day (λ sell. true) (sort_sells sells) (sort_buys buys) pool ps
          same_day-IsHmrcRule h)

-- A lot that a rule may use.
abbrev pub IsUsable : Rule → ℕ → MatchBuyLot → Type 0
IsUsable rule date buy = (rule.predicate buy date ≡ true) × (dust < buy.qty_remaining)

match_one_sell :
    (period : Period) (rule : Rule) (buy : MatchBuyLot) (sell : MatchSellLot)
    (ps : List ClosedPosition)
    → ((match_one period rule buy sell ps).sell.date ≡ sell.date)
      × ((match_one period rule buy sell ps).sell.qty_remaining ≤ sell.qty_remaining)
unfolding match_one
match_one_sell period rule buy sell ps = elim (Bool-cases (takes_from rule buy sell)) [
  | inl e ↦ rw e (refl, omega arith)
  | inr e ↦ rw e (refl, omega arith)
]

match_one_complete :
    (period : Period) (rule : Rule) (buy : MatchBuyLot) (sell : MatchSellLot)
    (ps : List ClosedPosition)
    → ((match_one period rule buy sell ps).sell.qty_remaining ≤ dust)
      ⊎ (¬ IsUsable rule sell.date (match_one period rule buy sell ps).buy)
unfolding match_one
match_one_complete period rule buy sell ps = elim (Bool-cases (takes_from rule buy sell)) [
  | inl e ↦ rw e (elim (Bool-cases (leb sell.qty_remaining buy.qty_remaining)) [
    | inl sold ↦ inl (ground arith)
    | inr used ↦ inr (λ u. ground (arith, u.1))
  ])
  | inr e ↦ rw e (elim (Bool-cases (leb sell.qty_remaining dust)) [
    | inl sold ↦ inl (ground arith)
    | inr open_sale ↦ inr (λ u. ground (arith, u.0, u.1))
  ])
]

match_lots_sell :
    (period : Period) (rule : Rule) (buys : List MatchBuyLot) (sell : MatchSellLot)
    (ps : List ClosedPosition)
    → (match_buy_lots_to_sell period rule buys sell ps).sell.qty_remaining ≤ sell.qty_remaining
unfolding match_buy_lots_to_sell
match_lots_sell period rule [] sell ps = omega arith
match_lots_sell period rule (buy ∷ buys) sell ps =
    let m = match_one period rule buy sell ps in
    omega (
      arith,
      (match_one_sell period rule buy sell ps).1,
      match_lots_sell period rule buys m.sell m.positions,
    )

-- Matching a disposal by any rule ends with at most the dust of the disposal
-- left, or with no lot of more than the dust that the rule allows.
match_lots_complete :
    (period : Period) (rule : Rule) (buys : List MatchBuyLot) (sell : MatchSellLot)
    (ps : List ClosedPosition)
    → let m = match_buy_lots_to_sell period rule buys sell ps in
      (m.sell.qty_remaining ≤ dust) ⊎ All (λ buy. ¬ IsUsable rule sell.date buy) m.buys
unfolding match_buy_lots_to_sell
match_lots_complete period rule [] sell ps = inr tt
match_lots_complete period rule (buy ∷ buys) sell ps =
    let m = match_one period rule buy sell ps in
    let same_date : m.sell.date ≡ sell.date = (match_one_sell period rule buy sell ps).0 in
    let rest = match_lots_complete period rule buys m.sell m.positions in
    elim (match_one_complete period rule buy sell ps) [
      | inl sold ↦ inl (omega (arith, match_lots_sell period rule buys m.sell m.positions))
      | inr unusable ↦ elim rest [
        | inl sold ↦ inl sold
        | inr others ↦ inr (
          unusable,
          subst
              (λ (date : ℕ).
                All (λ b. ¬ IsUsable rule date b)
                  (match_buy_lots_to_sell period rule buys m.sell m.positions).buys)
              same_date others,
        )
      ]
    ]
