-- ===== src/Candidates/Chosen.antt =====
-- The rows that src/auto.rs `find_buy_candidates` takes.
use mlai_trade.Common.{
  ℕ, suc, ◌+◌, ◌-◌, ◌≡◌, refl, sym, ◌∙◌, inl, inr, List, [], ◌∷◌, ◌++◌, arith, leb, Bool-cases,
  keep, take, length, length-append, append_nil, append_assoc, Option, some, none,
}
use mlai_trade.Candidates.{
  BuyCandidate, order_rows, StrategyConfig, Context, is_eligible, find_loop, find_buy_candidates,
  selected_rows, latest_date, candidates_at,
}

abbrev pub eligible_rows : StrategyConfig → Context → List BuyCandidate → List BuyCandidate
eligible_rows cfg ctx rows = keep (λ (r : BuyCandidate). is_eligible cfg ctx r.symbol) rows

pushed-length :
    (candidates : List BuyCandidate) (row : BuyCandidate)
    → length (candidates ++ (row ∷ [])) ≡ suc (length candidates)
pushed-length candidates row = omega (arith, length-append candidates (row ∷ []))

loop-take :
    (cfg : StrategyConfig) (ctx : Context) (rows candidates : List BuyCandidate) (room : ℕ)
    → length candidates + suc room ≡ 50
    → find_loop cfg ctx rows candidates ≡ candidates ++ take (suc room) (eligible_rows cfg ctx rows)
unfolding find_loop
loop-take cfg ctx [] candidates room h = sym (append_nil candidates)
loop-take cfg ctx (row ∷ rows) candidates room h =
    elim (Bool-cases (is_eligible cfg ctx row.symbol)) [
      | inr skipped ↦ rw (find_loop, skipped) (loop-take cfg ctx rows candidates room h)
      | inl eligible ↦ elim (Bool-cases (leb 50 (length (candidates ++ (row ∷ []))))) [
        | inl full ↦
            let e : room ≡ 0 = ground (arith, pushed-length candidates row) in
            rw (find_loop, eligible, full, e) refl
        | inr not_full ↦
            let e : room ≡ suc (room - 1) = ground (arith, pushed-length candidates row) in
            let rest =
              loop-take cfg ctx rows (candidates ++ (row ∷ [])) (room - 1)
                (ground (arith, pushed-length candidates row)) in
            rw (find_loop, eligible, not_full, e) (rest ∙ append_assoc candidates (row ∷ []) _)
      ]
    ]

-- The rows of the latest date in the order that the query returns them.
abbrev pub ordered_at : StrategyConfig → Context → Option ℕ → List BuyCandidate
ordered_at cfg ctx none = []
ordered_at cfg ctx (some date) = order_rows (selected_rows date cfg.ml_quintile_buy ctx.predictions)

at-take :
    (cfg : StrategyConfig) (ctx : Context) (date : Option ℕ)
    → candidates_at cfg ctx date ≡ take 50 (eligible_rows cfg ctx (ordered_at cfg ctx date))
at-take cfg ctx none = refl
at-take cfg ctx (some date) = loop-take cfg ctx _ [] 49 refl

-- The candidates are the first fifty of the eligible rows of the latest date: the loop that stops early
-- leaves out none that it should have taken.
pub find_buy_candidates-take :
    (cfg : StrategyConfig) (ctx : Context)
    → find_buy_candidates cfg ctx
      ≡ take 50 (eligible_rows cfg ctx (ordered_at cfg ctx (latest_date ctx.predictions)))
unfolding find_buy_candidates
find_buy_candidates-take cfg ctx = at-take cfg ctx (latest_date ctx.predictions)
