-- ===== src/Buying/Orders.antt =====
-- What the buy loop of src/auto.rs does to its variables.
use mlai_trade.Common.{
  ℕ, ◌+◌, ◌*◌, ◌≤◌, ◌<◌, ◌≡◌, refl, ◌⊎◌, inl, inr, false, Option, none, some, List, [], ◌∷◌, arith,
  leb, ltb, ◌==◌, Bool-cases, any, length, All,
}
use mlai_trade.Common.Int.{ℤ, pos, ◌+ℤ◌, ◌≤ℤ◌, int_laws, -ℤ_parts, parts_of_eq}
use mlai_trade.Buying.{
  BuyConfig, Candidate, Buy, BuyState, Step, go_on, stop, shares_for, is_open, bought, place_order,
  with_price, candidate_step, buy_loop,
}

abbrev pub spent : List Buy → ℕ
spent [] = 0
spent (b ∷ buys) = b.shares * b.price + spent buys

-- No symbol is bought twice.
abbrev pub Distinct : List Buy → Type 0
Distinct [] = Unit
Distinct (b ∷ buys) = (any (λ (other : Buy). other.symbol == b.symbol) buys ≡ false) × Distinct buys

abbrev pub state_of : Step → BuyState
state_of (go_on s) = s
state_of (stop s) = s

module _ (cfg : BuyConfig) (equity : ℤ) where
  -- One accepted order.
  pub record IsBuy (s : BuyState) (c : Candidate) (s' : BuyState) : Type 0 where
    pub price : ℕ
    pub shares : ℕ
    pub slot_left : s.filled < cfg.slots
    pub not_cheap : cfg.min_price ≤ price
    pub some_shares : 0 < shares
    pub covered : pos (shares * price) ≤ℤ s.remaining_cash
    pub not_open : is_open s c ≡ false
    pub next : s' ≡ bought s c.symbol shares price

  placed :
      (s : BuyState) (c : Candidate) (price shares : ℕ)
      → (state_of (place_order s c price shares) ≡ s)
        ⊎ ((0 < shares)
            × (pos (shares * price) ≤ℤ s.remaining_cash)
            × (is_open s c ≡ false)
            × (state_of (place_order s c price shares) ≡ bought s c.symbol shares price))
  unfolding place_order
  placed s c price shares = ground (arith, -ℤ_parts s.remaining_cash (pos (shares * price)))

  place_order_lem :
      (s : BuyState) (c : Candidate) (price shares : ℕ)
      → s.filled < cfg.slots
      → cfg.min_price ≤ price
      → (state_of (place_order s c price shares) ≡ s)
        ⊎ IsBuy s c (state_of (place_order s c price shares))
  place_order_lem s c price shares slot_left not_cheap = elim (placed s c price shares) [
    | inl same ↦ inl same
    | inr (positive_shares, value_covered, free, moved) ↦ inr (record {
      price = price;
      shares = shares;
      slot_left = slot_left;
      not_cheap = not_cheap;
      some_shares = positive_shares;
      covered = value_covered;
      not_open = free;
      next = moved;
    })
  ]

  candidate_step_lem :
      (s : BuyState) (c : Candidate)
      → (state_of (candidate_step cfg equity s c) ≡ s)
        ⊎ IsBuy s c (state_of (candidate_step cfg equity s c))
  unfolding candidate_step
  candidate_step_lem s c = elim (Bool-cases (leb cfg.slots s.filled)) [
    | inl full ↦ rw full (inl refl)
    | inr slot_left ↦ rw slot_left (by_price c.price (ground arith))
  ]
    where
      by_price :
          (o : Option ℕ)
          → s.filled < cfg.slots
          → (state_of (with_price cfg equity s c o) ≡ s)
            ⊎ IsBuy s c (state_of (with_price cfg equity s c o))
      by_price none h = inl refl
      by_price (some price) h = elim (Bool-cases (ltb price cfg.min_price)) [
        | inl cheap ↦ rw cheap (inl refl)
        | inr enough ↦ rw enough (
            place_order_lem s c price (shares_for cfg.position_size_pct equity price) h
              (ground arith))
      ]

  -- What holds of the variables throughout, for the cash at the start.
  pub record Inv (start : ℤ) (s : BuyState) : Type 0 where
    pub cash : s.remaining_cash +ℤ pos (spent s.buys) ≡ start
    pub not_negative : pos 0 ≤ℤ s.remaining_cash
    pub count : s.filled ≡ length s.buys
    pub in_slots : s.filled ≤ cfg.slots
    pub priced : All (λ (b : Buy). (cfg.min_price ≤ b.price) × (0 < b.shares)) s.buys
    pub distinct : Distinct s.buys

  buy-Inv :
      (start : ℤ) (s : BuyState) (c : Candidate) (s' : BuyState)
      → Inv start s
      → IsBuy s c s'
      → Inv start s'
  buy-Inv start s c s' inv b = rw b.next (record {
    cash = omega (int_laws, parts_of_eq (s.remaining_cash +ℤ pos (spent s.buys)) start inv.cash);
    not_negative = omega (int_laws, b.covered);
    count = omega (arith, inv.count);
    in_slots = omega (arith, b.slot_left);
    priced = ((b.not_cheap, b.some_shares), inv.priced);
    distinct = (ground (arith, b.not_open), inv.distinct);
  })

  step-Inv :
      (start : ℤ) (s : BuyState) (c : Candidate)
      → Inv start s
      → Inv start (state_of (candidate_step cfg equity s c))
  step-Inv start s c inv = elim (candidate_step_lem s c) [
    | inl same ↦ rw same inv
    | inr buy ↦ buy-Inv start s c (state_of (candidate_step cfg equity s c)) inv buy
  ]

  pub buy_loop-Inv :
      (start : ℤ) (candidates : List Candidate) (s : BuyState)
      → Inv start s
      → Inv start (buy_loop cfg equity candidates s)
  unfolding buy_loop
  buy_loop-Inv start [] s inv = inv
  buy_loop-Inv start (c ∷ candidates) s inv =
      after (candidate_step cfg equity s c) (step-Inv start s c inv)
        (λ s' h. buy_loop-Inv start candidates s' h)
    where
      after :
          (step : Step)
          → Inv start (state_of step)
          → ((s' : BuyState) → Inv start s' → Inv start (buy_loop cfg equity candidates s'))
          → Inv start (elim step [ go_on s' ↦ buy_loop cfg equity candidates s' | stop s' ↦ s' ])
      after (go_on s') h rest = rest s' h
      after (stop s') h rest = h
