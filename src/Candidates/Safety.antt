-- ===== src/Candidates/Safety.antt =====
-- The guards of src/auto.rs `find_buy_candidates` on every candidate.
use mlai_trade.Common.{
  All-map, ℕ, zero, suc, ◌≤◌, ◌≡◌, inl, inr, Bool, true, false, Option, some, none, List, [], ◌∷◌,
  arith, All, Bool-cases, keep, take, length,
}
use mlai_trade.Common.Int.{◌≤ℤ◌, leb_ℤ}
use mlai_trade.WashSales.{has_wash_sale_window}
use mlai_trade.Candidates.{
  BuyCandidate, insert_row, order_rows, StrategyConfig, Context, is_blocked, is_held,
  has_exit_cooldown, is_traded, is_eligible, find_buy_candidates, latest_date,
}
use mlai_trade.Candidates.Chosen.{eligible_rows, ordered_at, find_buy_candidates-take}

-- The scores do not rise.
abbrev pub IsDescending : List BuyCandidate → Type 0
IsDescending [] = Unit
IsDescending (c ∷ cs) = All (λ (d : BuyCandidate). d.ml_score ≤ℤ c.ml_score) cs × IsDescending cs

-- No guard skips the symbol.
pub record IsBuyable (cfg : StrategyConfig) (ctx : Context) (c : BuyCandidate) : Type 0 where
  pub not_blocked : is_blocked cfg.blocked_symbols c.symbol ≡ false
  pub not_held : is_held ctx c.symbol ≡ false
  pub no_window :
      has_wash_sale_window cfg.tax_country ctx.wash_sale_tracker ctx.account.is_paper c.symbol
        ctx.today
      ≡ false
  pub no_cooldown :
      has_exit_cooldown ctx.positions ctx.account c.symbol cfg.exit_cooldown_days ctx.today ≡ false
  pub traded : is_traded cfg (ctx.bars c.symbol) ≡ true

module _ {A : Type 0} where
  All-take : (P : A → Type 0) (n : ℕ) (xs : List A) → All P xs → All P (take n xs)
  All-take P zero xs h = tt
  All-take P (suc n) [] h = tt
  All-take P (suc n) (x ∷ xs) (p, h) = (p, All-take P n xs h)

  All-keep : (P : A → Type 0) (f : A → Bool) (xs : List A) → All P xs → All P (keep f xs)
  All-keep P f [] h = tt
  All-keep P f (x ∷ xs) (p, h) = elim (Bool-cases (f x)) [
    | inl e ↦ rw e (p, All-keep P f xs h)
    | inr e ↦ rw e (All-keep P f xs h)
  ]

  kept-All : (f : A → Bool) (xs : List A) → All (λ x. f x ≡ true) (keep f xs)
  kept-All f [] = tt
  kept-All f (x ∷ xs) = elim (Bool-cases (f x)) [
    | inl e ↦ rw e (e, kept-All f xs)
    | inr e ↦ rw e (kept-All f xs)
  ]

  length-take : (n : ℕ) (xs : List A) → length (take n xs) ≤ n
  length-take zero xs = omega arith
  length-take (suc n) [] = omega arith
  length-take (suc n) (x ∷ xs) = omega (arith, length-take n xs)

take-IsDescending : (n : ℕ) (cs : List BuyCandidate) → IsDescending cs → IsDescending (take n cs)
take-IsDescending zero cs h = tt
take-IsDescending (suc n) [] h = tt
take-IsDescending (suc n) (c ∷ cs) (a, h) = (All-take _ n cs a, take-IsDescending n cs h)

keep-IsDescending :
    (f : BuyCandidate → Bool) (cs : List BuyCandidate) → IsDescending cs → IsDescending (keep f cs)
keep-IsDescending f [] h = tt
keep-IsDescending f (c ∷ cs) (a, h) = elim (Bool-cases (f c)) [
  | inl e ↦ rw e (All-keep _ f cs a, keep-IsDescending f cs h)
  | inr e ↦ rw e (keep-IsDescending f cs h)
]

All-insert_row :
    (P : BuyCandidate → Type 0) (r : BuyCandidate) (rows : List BuyCandidate)
    → P r
    → All P rows
    → All P (insert_row r rows)
unfolding insert_row
All-insert_row P r [] p h = (p, tt)
All-insert_row P r (s ∷ rows) p (q, h) = elim (Bool-cases (leb_ℤ s.ml_score r.ml_score)) [
  | inl e ↦ rw (insert_row, e) (p, (q, h))
  | inr e ↦ rw (insert_row, e) (q, All-insert_row P r rows p h)
]

insert_row-IsDescending :
    (r : BuyCandidate) (rows : List BuyCandidate)
    → IsDescending rows
    → IsDescending (insert_row r rows)
unfolding insert_row
insert_row-IsDescending r [] h = (tt, tt)
insert_row-IsDescending r (s ∷ rows) (a, h) = elim (Bool-cases (leb_ℤ s.ml_score r.ml_score)) [
  | inl e ↦
      let below : s.ml_score ≤ℤ r.ml_score = ground arith in
      rw (insert_row, e) ((below, All-map _ _ rows (λ x le. omega (arith, le, below)) a), (a, h))
  | inr e ↦
      rw (insert_row, e)
        (
          All-insert_row (λ (d : BuyCandidate). d.ml_score ≤ℤ s.ml_score) r rows (ground arith) a,
          insert_row-IsDescending r rows h,
        )
]

order_rows-IsDescending : (rows : List BuyCandidate) → IsDescending (order_rows rows)
unfolding order_rows
order_rows-IsDescending [] = tt
order_rows-IsDescending (r ∷ rows) =
    insert_row-IsDescending r (order_rows rows) (order_rows-IsDescending rows)

ordered_at-IsDescending :
    (cfg : StrategyConfig) (ctx : Context) (date : Option ℕ)
    → IsDescending (ordered_at cfg ctx date)
ordered_at-IsDescending cfg ctx none = tt
ordered_at-IsDescending cfg ctx (some date) = order_rows-IsDescending _

is_eligible-IsBuyable :
    (cfg : StrategyConfig) (ctx : Context) (c : BuyCandidate)
    → is_eligible cfg ctx c.symbol ≡ true
    → IsBuyable cfg ctx c
unfolding is_eligible
is_eligible-IsBuyable cfg ctx c h = record {
  not_blocked = ground arith;
  not_held = ground arith;
  no_window = ground arith;
  no_cooldown = ground arith;
  traded = ground arith;
}

-- There are at most fifty candidates, in an order in which their scores do not rise, and none of them is
-- blocked, held already, within a wash-sale window, within the cooldown of an exit, or traded below the
-- least price or volume.
pub find_buy_candidates-IsBuyable :
    (cfg : StrategyConfig) (ctx : Context)
    → (length (find_buy_candidates cfg ctx) ≤ 50)
      × IsDescending (find_buy_candidates cfg ctx)
      × All (IsBuyable cfg ctx) (find_buy_candidates cfg ctx)
find_buy_candidates-IsBuyable cfg ctx =
    let rows = ordered_at cfg ctx (latest_date ctx.predictions) in
    rw (find_buy_candidates-take cfg ctx) (
      length-take 50 (eligible_rows cfg ctx rows),
      take-IsDescending 50 (eligible_rows cfg ctx rows)
          (keep-IsDescending _ rows (ordered_at-IsDescending cfg ctx _)),
      All-take _ 50 (eligible_rows cfg ctx rows) (
          All-map _ _ (eligible_rows cfg ctx rows) (is_eligible-IsBuyable cfg ctx)
            (kept-All (λ (r : BuyCandidate). is_eligible cfg ctx r.symbol) rows)),
    )
