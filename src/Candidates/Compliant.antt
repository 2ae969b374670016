-- ===== src/Candidates/Compliant.antt =====
-- src/auto.rs `find_buy_candidates` behind a run of the wash-sale monitor.
use mlai_trade.Common.{
  same_flag, ◌+◌, ◌<◌, ◌≡◌, ◌⊎◌, inl, inr, Bool, true, false, List, [], ◌∷◌, arith, All, Bool-cases,
}
use mlai_trade.Common.Int.{ℤ, ◌≤ℤ◌, pos_part}
use mlai_trade.Compliance.{tax_country_profile}
use mlai_trade.Remote.Text.{same_text}
use mlai_trade.Remote.Text.Laws.{same_text_iff}
use mlai_trade.WashSales.{
  SyncedFill, forward_days, has_wash_sale_window, no_lots, reconcile_wash_sales_for_tax_universe,
}
use mlai_trade.WashSales.Windows.{sold_at, IsCurrent}
use mlai_trade.WashSales.Blocks.{dated_buffer, loss_sales, IsBlocked, reconcile-IsBlocked}
use mlai_trade.Candidates.{BuyCandidate, StrategyConfig, Context, find_buy_candidates}
use mlai_trade.Candidates.Safety.{IsBuyable, find_buy_candidates-IsBuyable}

-- The days of the sale are over, or it was in the other tax universe or of another symbol.
abbrev pub IsNoReplacement : StrategyConfig → ℤ → Context → BuyCandidate → SyncedFill → Type 0
IsNoReplacement cfg buffer ctx c sale =
    ((sold_at sale).date + pos_part (forward_days cfg.tax_country buffer) < ctx.today)
    ⊎ (same_flag sale.paper_account ctx.account.is_paper ≡ false)
    ⊎ (same_text sale.symbol c.symbol ≡ false)

same_flag→eq : (a b : Bool) → same_flag a b ≡ true → a ≡ b
same_flag→eq true b h = ground arith
same_flag→eq false b h = ground arith

not_replaced :
    (cfg : StrategyConfig) (buffer : ℤ) (ctx : Context) (c : BuyCandidate) (sale : SyncedFill)
    → has_wash_sale_window cfg.tax_country ctx.wash_sale_tracker ctx.account.is_paper c.symbol
        ctx.today
      ≡ false
    → IsBlocked cfg.tax_country buffer ctx.wash_sale_tracker ctx.today sale
    → IsNoReplacement cfg buffer ctx c sale
not_replaced cfg buffer ctx c sale none_open (inl over) = inl over
not_replaced cfg buffer ctx c sale none_open (inr window) =
    elim (Bool-cases (same_flag sale.paper_account ctx.account.is_paper)) [
      | inr other ↦ inr (inl other)
      | inl paper ↦ elim (Bool-cases (same_text sale.symbol c.symbol)) [
        | inr other ↦ inr (inr other)
        | inl symbol ↦
            let p : sale.paper_account ≡ ctx.account.is_paper = same_flag→eq _ _ paper in
            let s : sale.symbol ≡ c.symbol = (same_text_iff sale.symbol c.symbol).0 symbol in
            let window' = window in
            let clash = rw (p, s) at window' in absurd (ground (arith, clash, none_open))
      ]
    ]

sales-not_replaced :
    (cfg : StrategyConfig) (buffer : ℤ) (ctx : Context) (c : BuyCandidate) (sales : List SyncedFill)
    → IsBuyable cfg ctx c
    → All (IsBlocked cfg.tax_country buffer ctx.wash_sale_tracker ctx.today) sales
    → All (IsNoReplacement cfg buffer ctx c) sales
sales-not_replaced cfg buffer ctx c [] buyable h = tt
sales-not_replaced cfg buffer ctx c (sale ∷ sales) buyable (b, h) = (
  not_replaced cfg buffer ctx c sale buyable.no_window b,
  sales-not_replaced cfg buffer ctx c sales buyable h,
)

candidates-not_replaced :
    (cfg : StrategyConfig) (buffer : ℤ) (ctx : Context) (sales : List SyncedFill)
    (cs : List BuyCandidate)
    → All (IsBlocked cfg.tax_country buffer ctx.wash_sale_tracker ctx.today) sales
    → All (IsBuyable cfg ctx) cs
    → All (λ (c : BuyCandidate). All (IsNoReplacement cfg buffer ctx c) sales) cs
candidates-not_replaced cfg buffer ctx sales [] blocked h = tt
candidates-not_replaced cfg buffer ctx sales (c ∷ cs) blocked (b, h) = (
  sales-not_replaced cfg buffer ctx c sales b blocked,
  candidates-not_replaced cfg buffer ctx sales cs blocked h,
)

-- The context behind the run of the monitor.
abbrev pub monitored : StrategyConfig → ℤ → List SyncedFill → Context → Context
monitored cfg buffer fills ctx = record ctx {
  wash_sale_tracker =
      (reconcile_wash_sales_for_tax_universe cfg.tax_country buffer fills
        ctx.wash_sale_tracker).tracker;
}

-- In a country with the rule, with a buffer of at most 2,900,000 days, and from a tracker whose rows are
-- active and end no earlier than today's rules say: behind a run over the fills no candidate has the symbol of a fill that sold first-in first-out lots
-- at a loss in the account's tax universe and whose days are not over.
pub candidates-IsNoReplacement :
    (cfg : StrategyConfig) (buffer : ℤ) (fills : List SyncedFill) (ctx : Context)
    → (tax_country_profile cfg.tax_country).wash_sale_blocking_enabled ≡ true
    → buffer ≤ℤ dated_buffer
    → All (IsCurrent (forward_days cfg.tax_country buffer)) ctx.wash_sale_tracker
    → All
        (λ (c : BuyCandidate). All (IsNoReplacement cfg buffer ctx c) (loss_sales fills no_lots))
        (find_buy_candidates cfg (monitored cfg buffer fills ctx))
candidates-IsNoReplacement cfg buffer fills ctx enabled small current =
    candidates-not_replaced cfg buffer (monitored cfg buffer fills ctx) (loss_sales fills no_lots)
      (find_buy_candidates cfg (monitored cfg buffer fills ctx))
      (reconcile-IsBlocked cfg.tax_country buffer fills ctx.wash_sale_tracker ctx.today enabled
        small current).1
      (find_buy_candidates-IsBuyable cfg (monitored cfg buffer fills ctx)).2
