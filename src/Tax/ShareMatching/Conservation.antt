-- ===== src/Tax/ShareMatching/Conservation.antt =====
-- The quantities in the UK share matching of src/tax.rs: nothing is identified twice.
use mlai_trade.Common.{
  ℕ, ◌+◌, ◌≡◌, refl, inl, inr, ◌*◌, ◌||◌, List, [], ◌∷◌, arith, Bool, true, false, Bool-cases, leb,
}
use mlai_trade.Tax.Positions.{ClosedPosition, Period, dust}
use mlai_trade.Tax.ShareLots.{
  MatchBuyLot, MatchSellLot, Section104Pool, Rule, same_day, thirty_day, takes_from, match_one,
  match_buy_lots_to_sell,
}
use mlai_trade.Tax.ShareMatching.{
  GbState, is_open_on, match_sale, match_sales, goes_to_pool, pool_lots,
  match_section104_pool_to_sell, match_pool, pool_sales, match_date, match_dates, sort_buys,
  sort_sells, insert_buy, insert_sell, match_key, open_dates,
}

abbrev pub total_buys : List MatchBuyLot → ℕ
total_buys [] = 0
total_buys (b ∷ bs) = b.qty_remaining + total_buys bs

abbrev pub total_sells : List MatchSellLot → ℕ
total_sells [] = 0
total_sells (s ∷ ss) = s.qty_remaining + total_sells ss

match_one_qty :
    (period : Period) (rule : Rule) (buy : MatchBuyLot) (sell : MatchSellLot)
    (ps : List ClosedPosition)
    → buy.qty_remaining + (match_one period rule buy sell ps).sell.qty_remaining
      ≡ (match_one period rule buy sell ps).buy.qty_remaining + sell.qty_remaining
unfolding match_one
match_one_qty period rule buy sell ps = elim (Bool-cases (takes_from rule buy sell)) [
  | inl e ↦ rw e (omega arith)
  | inr e ↦ rw e refl
]

match_lots_qty :
    (period : Period) (rule : Rule) (buys : List MatchBuyLot) (sell : MatchSellLot)
    (ps : List ClosedPosition)
    → total_buys buys + (match_buy_lots_to_sell period rule buys sell ps).sell.qty_remaining
      ≡ total_buys (match_buy_lots_to_sell period rule buys sell ps).buys + sell.qty_remaining
unfolding match_buy_lots_to_sell
match_lots_qty period rule [] sell ps = refl
match_lots_qty period rule (buy ∷ buys) sell ps =
    let m = match_one period rule buy sell ps in
    omega (
      arith,
      match_one_qty period rule buy sell ps,
      match_lots_qty period rule buys m.sell m.positions,
    )

match_sale_qty :
    (period : Period) (rule : Rule) (wanted : Bool) (buys : List MatchBuyLot) (sell : MatchSellLot)
    (ps : List ClosedPosition)
    → total_buys buys + (match_sale period rule wanted buys sell ps).sell.qty_remaining
      ≡ total_buys (match_sale period rule wanted buys sell ps).buys + sell.qty_remaining
match_sale_qty period rule true buys sell ps = match_lots_qty period rule buys sell ps
match_sale_qty period rule false buys sell ps = refl

-- The shares in the lots, the pool and, against them, in the sales.
abbrev held : GbState → ℕ
held s = total_buys s.buys + s.pool.qty

match_sales_qty :
    (period : Period) (rule : Rule) (wanted : MatchSellLot → Bool) (sells : List MatchSellLot)
    (buys : List MatchBuyLot) (pool : Section104Pool) (ps : List ClosedPosition)
    → total_buys buys
        + pool.qty
        + total_sells (match_sales period rule wanted sells buys pool ps).sells
      ≡ held (match_sales period rule wanted sells buys pool ps) + total_sells sells
unfolding match_sales
match_sales_qty period rule wanted [] buys pool ps = refl
match_sales_qty period rule wanted (sell ∷ sells) buys pool ps =
    let m = match_sale period rule (wanted sell) buys sell ps in
    omega (
      arith,
      match_sale_qty period rule (wanted sell) buys sell ps,
      match_sales_qty period rule wanted sells m.buys pool m.positions,
    )

pool_lots_qty :
    (date : ℕ) (buys : List MatchBuyLot) (pool : Section104Pool)
    → total_buys buys + pool.qty
      ≡ total_buys (pool_lots date buys pool).buys + (pool_lots date buys pool).pool.qty
unfolding pool_lots
pool_lots_qty date [] pool = refl
pool_lots_qty date (buy ∷ buys) pool = elim (Bool-cases (goes_to_pool date buy)) [
  | inl e ↦ rw e (
      omega (
        arith,
        pool_lots_qty date buys (record {
          qty = pool.qty + buy.qty_remaining;
          cost = pool.cost + buy.qty_remaining * buy.price;
        }),
      ))
  | inr e ↦ rw e (omega (arith, pool_lots_qty date buys pool))
]

match_pool_qty :
    (period : Period) (wanted : Bool) (pool : Section104Pool) (sell : MatchSellLot)
    (ps : List ClosedPosition)
    → pool.qty + (match_pool period wanted pool sell ps).sell.qty_remaining
      ≡ (match_pool period wanted pool sell ps).pool.qty + sell.qty_remaining
unfolding match_section104_pool_to_sell
match_pool_qty period true pool sell ps =
    elim (Bool-cases (leb pool.qty dust || leb sell.qty_remaining dust)) [
      | inl e ↦ rw e refl
      | inr e ↦ rw e (omega arith)
    ]
match_pool_qty period false pool sell ps = refl

pool_sales_qty :
    (period : Period) (wanted : MatchSellLot → Bool) (sells : List MatchSellLot)
    (buys : List MatchBuyLot) (pool : Section104Pool) (ps : List ClosedPosition)
    → total_buys buys + pool.qty + total_sells (pool_sales period wanted sells buys pool ps).sells
      ≡ held (pool_sales period wanted sells buys pool ps) + total_sells sells
unfolding pool_sales
pool_sales_qty period wanted [] buys pool ps = refl
pool_sales_qty period wanted (sell ∷ sells) buys pool ps =
    let m = match_pool period (wanted sell) pool sell ps in
    omega (
      arith,
      match_pool_qty period (wanted sell) pool sell ps,
      pool_sales_qty period wanted sells buys m.pool m.positions,
    )

match_date_qty :
    (period : Period) (date : ℕ) (s : GbState)
    → held s + total_sells (match_date period date s).sells
      ≡ held (match_date period date s) + total_sells s.sells
unfolding match_date
match_date_qty period date s =
    let later = match_sales period thirty_day (is_open_on date) s.sells s.buys s.pool s.positions in
    let p = pool_lots date later.buys later.pool in
    omega (
      arith,
      match_sales_qty period thirty_day (is_open_on date) s.sells s.buys s.pool s.positions,
      pool_lots_qty date later.buys later.pool,
      pool_sales_qty period (is_open_on date) later.sells p.buys p.pool later.positions,
    )

match_dates_qty :
    (period : Period) (dates : List ℕ) (s : GbState)
    → held s + total_sells (match_dates period dates s).sells
      ≡ held (match_dates period dates s) + total_sells s.sells
unfolding match_dates
match_dates_qty period [] s = refl
match_dates_qty period (date ∷ dates) s =
    omega
      (arith, match_date_qty period date s, match_dates_qty period dates (match_date period date s))

insert_buy_qty :
    (b : MatchBuyLot) (cs : List MatchBuyLot)
    → total_buys (insert_buy b cs) ≡ b.qty_remaining + total_buys cs
insert_buy_qty b [] = refl
insert_buy_qty b (c ∷ cs) = ground (arith, insert_buy_qty b cs)

sort_buys_qty : (bs : List MatchBuyLot) → total_buys (sort_buys bs) ≡ total_buys bs
unfolding sort_buys
sort_buys_qty [] = refl
sort_buys_qty (b ∷ bs) = omega (arith, insert_buy_qty b (sort_buys bs), sort_buys_qty bs)

insert_sell_qty :
    (b : MatchSellLot) (cs : List MatchSellLot)
    → total_sells (insert_sell b cs) ≡ b.qty_remaining + total_sells cs
insert_sell_qty b [] = refl
insert_sell_qty b (c ∷ cs) = ground (arith, insert_sell_qty b cs)

sort_sells_qty : (bs : List MatchSellLot) → total_sells (sort_sells bs) ≡ total_sells bs
unfolding sort_sells
sort_sells_qty [] = refl
sort_sells_qty (b ∷ bs) = omega (arith, insert_sell_qty b (sort_sells bs), sort_sells_qty bs)

-- For one key, the shares bought are those left in the lots and in the pool together with those
-- identified with sales: no share is identified twice and none is lost.
pub match_key_conserves :
    (period : Period) (buys : List MatchBuyLot) (sells : List MatchSellLot)
    (ps : List ClosedPosition)
    → total_buys buys + total_sells (match_key period buys sells ps).sells
      ≡ total_buys (match_key period buys sells ps).buys
        + (match_key period buys sells ps).pool.qty
        + total_sells sells
unfolding match_key
match_key_conserves period buys sells ps =
    let pool : Section104Pool = record { qty = 0; cost = 0 } in
    let first =
      match_sales period same_day (λ sell. true) (sort_sells sells) (sort_buys buys) pool ps in
    omega (
      arith,
      sort_buys_qty buys,
      sort_sells_qty sells,
      match_sales_qty period same_day (λ sell. true) (sort_sells sells) (sort_buys buys) pool ps,
      match_dates_qty period (open_dates first.sells) first,
    )
