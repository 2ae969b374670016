-- ===== src/Candidates.antt =====
-- The choice of what to buy: src/auto.rs `find_buy_candidates` with its guards, and the blocked symbols of
-- src/config.rs. A text is the list of its bytes, a date is a day number, a score an integer and a price a
-- whole number of cents. The tables are arguments; the bars of a symbol come newest first.
pub mod Options
pub mod Chosen
pub mod Safety
pub mod Compliant
mod Tests
use mlai_trade.Common.{
  same_flag, ℕ, zero, suc, ◌+◌, ◌-◌, ◌/◌, max, Bool, true, false, not, ◌&&◌, ◌||◌, Option, none,
  some, List, [], ◌∷◌, ◌++◌, if◌then◌else◌, ltb, leb, ◌==◌, any, keep, take, drop, length,
}
use mlai_trade.Common.Int.{ℤ, pos, pos_part, leb_ℤ, ltb_ℤ}
use mlai_trade.Tax.Positions.{TaxCountry}
use mlai_trade.Remote.Text.{same_text, trim, to_ascii_uppercase, is_digit}
use mlai_trade.WashSales.{Window, has_wash_sale_window}

abbrev pub normalize_symbol : List ℕ → Option (List ℕ)
normalize_symbol value = elim (to_ascii_uppercase (trim value)) [
  | [] ↦ none
  | c ∷ cs ↦ some (c ∷ cs)
]

abbrev pub push_some : Option (List ℕ) → List (List ℕ) → List (List ℕ)
push_some none symbols = symbols
push_some (some s) symbols = s ∷ symbols

abbrev pub blocked_symbols : List (List ℕ) → List (List ℕ)
blocked_symbols [] = []
blocked_symbols (s ∷ configured) = push_some (normalize_symbol s) (blocked_symbols configured)

abbrev pub among : List (List ℕ) → Option (List ℕ) → Bool
among symbols none = false
among symbols (some symbol) = any (λ (s : List ℕ). same_text s symbol) symbols

unfoldable pub is_blocked_symbol : List (List ℕ) → List ℕ → Bool
is_blocked_symbol configured symbol = among (blocked_symbols configured) (normalize_symbol symbol)

abbrev pub all_digits : List ℕ → Bool
all_digits [] = true
all_digits (c ∷ cs) = is_digit c && all_digits cs

-- Behind six digits, `C` or `P` and at least eight digits to the end.
abbrev pub is_strike : List ℕ → Bool
is_strike [] = false
is_strike (cp ∷ strike) = ((cp == 67) || (cp == 80)) && leb 8 (length strike) && all_digits strike

-- The loop over the places that have 15 bytes from there on.
unfoldable pub option_loop : List ℕ → Bool
option_loop [] = false
option_loop (c ∷ cs) =
    let rest = option_loop cs in
    if ltb (length (c ∷ cs)) 15
    then false
    else if all_digits (take 6 (c ∷ cs)) && is_strike (drop 6 (c ∷ cs))
    then true
    else rest

-- `replace([' ', '-'], "")`
abbrev pub compact : List ℕ → List ℕ
compact symbol = keep (λ (c : ℕ). not ((c == 32) || (c == 45))) symbol

unfoldable pub looks_like_option_symbol : List ℕ → Bool
unfolding option_loop
looks_like_option_symbol symbol =
    if ltb (length (compact symbol)) 15 then false else option_loop (drop 1 (compact symbol))

unfoldable pub is_blocked : List (List ℕ) → List ℕ → Bool
unfolding is_blocked_symbol looks_like_option_symbol
is_blocked configured sym = is_blocked_symbol configured sym || looks_like_option_symbol sym

pub record Account : Type 0 where
  pub provider : List ℕ
  pub account_ref : List ℕ
  pub is_paper : Bool

abbrev pub same_account : Account → Account → Bool
same_account a b =
    same_text a.provider b.provider
    && same_text a.account_ref b.account_ref
    && same_flag a.is_paper b.is_paper

pub data PositionStatus : Type 0 where
  opened closed : PositionStatus

-- A row of the automatic positions.
pub record PositionRow : Type 0 where
  pub symbol : List ℕ
  pub account : Account
  pub status : PositionStatus
  pub exit_date : Option ℕ

abbrev pub is_open_row : Account → List ℕ → PositionRow → Bool
is_open_row account symbol row = elim row.status [
  | opened ↦ same_account row.account account && same_text row.symbol symbol
  | closed ↦ false
]

-- A missing exit date compares as nothing.
abbrev pub is_since : ℕ → Option ℕ → Bool
is_since cutoff none = false
is_since cutoff (some date) = leb cutoff date

abbrev pub is_recent_exit : Account → List ℕ → ℕ → PositionRow → Bool
is_recent_exit account symbol cutoff row = elim row.status [
  | opened ↦ false
  | closed ↦
      same_text row.symbol symbol
      && same_account row.account account
      && is_since cutoff row.exit_date
]

unfoldable pub has_exit_cooldown : List PositionRow → Account → List ℕ → ℤ → ℕ → Bool
has_exit_cooldown rows account symbol cooldown_days today =
    if leb_ℤ cooldown_days (pos 0)
    then false
    else any (is_recent_exit account symbol (today - pos_part cooldown_days)) rows

pub record Prediction : Type 0 where
  pub symbol : List ℕ
  pub date : ℕ
  pub predicted_quintile : ℕ
  pub ensemble_score : Option ℤ
  pub predicted_score : Option ℤ

pub record BuyCandidate : Type 0 where
  pub symbol : List ℕ
  pub ml_score : ℤ
  pub ml_quintile : ℕ

-- `MAX(date)`
abbrev pub latest_date : List Prediction → Option ℕ
latest_date [] = none
latest_date (p ∷ ps) = elim (latest_date ps) [ none ↦ some p.date | some d ↦ some (max p.date d) ]

abbrev pub coalesce : Option ℤ → Option ℤ → Option ℤ
coalesce none b = b
coalesce (some a) b = some a

-- A row without a score cannot be read and is dropped.
abbrev pub push_row : Prediction → Option ℤ → List BuyCandidate → List BuyCandidate
push_row p none rows = rows
push_row p (some score) rows =
    record { symbol = p.symbol; ml_score = score; ml_quintile = p.predicted_quintile } ∷ rows

abbrev pub selected_rows : ℕ → ℕ → List Prediction → List BuyCandidate
selected_rows date quintile [] = []
selected_rows date quintile (p ∷ ps) =
    let rest = selected_rows date quintile ps in
    if (p.date == date) && leb p.predicted_quintile quintile
    then push_row p (coalesce p.ensemble_score p.predicted_score) rest
    else rest

-- `ORDER BY ... DESC`; rows of one score stay in the table's order.
unfoldable pub insert_row : BuyCandidate → List BuyCandidate → List BuyCandidate
insert_row r [] = r ∷ []
insert_row r (s ∷ rows) =
    let rest = insert_row r rows in if leb_ℤ s.ml_score r.ml_score then r ∷ s ∷ rows else s ∷ rest

unfoldable pub order_rows : List BuyCandidate → List BuyCandidate
unfolding insert_row
order_rows [] = []
order_rows (r ∷ rows) = insert_row r (order_rows rows)

pub record Bar : Type 0 where
  pub close : ℕ
  pub volume : ℕ

abbrev total_volume : List Bar → ℕ
total_volume [] = 0
total_volume (b ∷ bars) = b.volume + total_volume bars

-- `AVG(volume) as i64` of the 20 latest bars.
abbrev pub average_volume : List Bar → ℕ
average_volume bars = total_volume (take 20 bars) / length (take 20 bars)

pub record StrategyConfig : Type 0 where
  pub min_price : ℕ
  pub min_avg_volume : ℤ
  pub ml_quintile_buy : ℕ
  pub exit_cooldown_days : ℤ
  pub tax_country : TaxCountry
  pub blocked_symbols : List (List ℕ)

-- The database, the provider's open symbols in upper case and the clock.
pub record Context : Type 0 where
  pub account : Account
  pub predictions : List Prediction
  pub positions : List PositionRow
  pub wash_sale_tracker : List Window
  pub bars : List ℕ → List Bar
  pub provider_open_symbols : List (List ℕ)
  pub today : ℕ

abbrev pub is_held : Context → List ℕ → Bool
is_held ctx symbol =
    any (is_open_row ctx.account symbol) ctx.positions
    || any (λ (s : List ℕ). same_text s (to_ascii_uppercase (trim symbol)))
        ctx.provider_open_symbols

abbrev pub is_traded : StrategyConfig → List Bar → Bool
is_traded cfg [] = false
is_traded cfg (latest ∷ bars) =
    if ltb latest.close cfg.min_price
    then false
    else if ltb_ℤ (pos (average_volume (latest ∷ bars))) cfg.min_avg_volume
    then false
    else true

-- The `continue`s of the loop.
unfoldable pub is_eligible : StrategyConfig → Context → List ℕ → Bool
unfolding is_blocked has_wash_sale_window has_exit_cooldown
is_eligible cfg ctx symbol =
    if is_blocked cfg.blocked_symbols symbol
    then false
    else if is_held ctx symbol
    then false
    else if has_wash_sale_window cfg.tax_country ctx.wash_sale_tracker ctx.account.is_paper symbol
        ctx.today
    then false
    else if has_exit_cooldown ctx.positions ctx.account symbol cfg.exit_cooldown_days ctx.today
    then false
    else is_traded cfg (ctx.bars symbol)

abbrev pub max_candidates : ℕ
max_candidates = 50

unfoldable pub find_loop :
    StrategyConfig → Context → List BuyCandidate → List BuyCandidate → List BuyCandidate
find_loop cfg ctx [] candidates = candidates
find_loop cfg ctx (row ∷ rows) candidates = elim (is_eligible cfg ctx row.symbol) [
  | false ↦ find_loop cfg ctx rows candidates
  | true ↦
      let pushed = candidates ++ (row ∷ []) in
      let rest = find_loop cfg ctx rows pushed in
      if leb max_candidates (length pushed) then pushed else rest
]

abbrev pub candidates_at : StrategyConfig → Context → Option ℕ → List BuyCandidate
candidates_at cfg ctx none = []
candidates_at cfg ctx (some pred_date) =
    find_loop cfg ctx (order_rows (selected_rows pred_date cfg.ml_quintile_buy ctx.predictions)) []

unfoldable pub find_buy_candidates : StrategyConfig → Context → List BuyCandidate
unfolding find_loop order_rows
find_buy_candidates cfg ctx = candidates_at cfg ctx (latest_date ctx.predictions)
