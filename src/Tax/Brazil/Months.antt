-- ===== src/Tax/Brazil/Months.antt =====
-- The monthly buckets of src/tax.rs `brazil_tax_computation` and the positions that they sum up.
use mlai_trade.Common.{
  ℕ, ◌+◌, ◌*◌, ◌<◌, ◌≡◌, refl, inl, inr, Bool, true, false, not, ◌&&◌, List, [], ◌∷◌, arith, All,
  Bool-cases, if◌then◌else◌, ltb, ◌==◌,
}
use mlai_trade.Common.Int.{ℤ, pos, ◌+ℤ◌, int_laws}
use mlai_trade.Tax.Positions.{ClosedPosition, is_br}
use mlai_trade.Tax.Netting.{is_brazil_day_trade}
use mlai_trade.Tax.Brazil.{
  BrazilMonthlyBucket, Month, empty_bucket, add_to_bucket, add_to_month, Sorted, sort_position,
  sort_positions,
}

-- The three kinds of a position, by its country and its dates.
abbrev pub is_day_trade : ClosedPosition → Bool
is_day_trade c = is_br c.asset_market_country && (c.entry_date == c.exit_date)

abbrev pub is_normal : ClosedPosition → Bool
is_normal c = is_br c.asset_market_country && not (c.entry_date == c.exit_date)

abbrev pub is_foreign : ClosedPosition → Bool
is_foreign c = not (is_br c.asset_market_country)

-- The profit of the positions of a kind, and the amount of the normal sales of a month.
abbrev pub pnl_where : (ClosedPosition → Bool) → List ClosedPosition → ℤ
pnl_where p [] = pos 0
pnl_where p (c ∷ cs) = (if p c then c.pnl else pos 0) +ℤ pnl_where p cs

module _ (month_of : ℕ → ℕ) where
  abbrev pub sales_in : ℕ → List ClosedPosition → ℕ
  sales_in key [] = 0
  sales_in key (c ∷ cs) =
      (if is_normal c && (month_of c.exit_date == key) then c.exit_price * c.qty else 0)
      + sales_in key cs

-- The same over the buckets.
abbrev pub days_net : List Month → ℤ
days_net [] = pos 0
days_net (m ∷ ms) = m.bucket.day_trade_net +ℤ days_net ms

abbrev pub gated_net : (ℕ → Bool) → List Month → ℤ
gated_net g [] = pos 0
gated_net g (m ∷ ms) = (if g m.key then m.bucket.normal_net else pos 0) +ℤ gated_net g ms

abbrev pub sales_at : ℕ → List Month → ℕ
sales_at key [] = 0
sales_at key (m ∷ ms) = (if m.key == key then m.bucket.normal_sales else 0) + sales_at key ms

-- What a position adds to a bucket.
abbrev day_part : ClosedPosition → ℤ
day_part c = if is_brazil_day_trade c then c.pnl else pos 0

abbrev normal_part : ClosedPosition → ℤ
normal_part c = if is_brazil_day_trade c then pos 0 else c.pnl

abbrev sales_part : ClosedPosition → ℕ
sales_part c = if is_brazil_day_trade c then 0 else c.exit_price * c.qty

bucket_parts :
    (c : ClosedPosition) (b : BrazilMonthlyBucket)
    → ((add_to_bucket c b).day_trade_net ≡ b.day_trade_net +ℤ day_part c)
      × ((add_to_bucket c b).normal_net ≡ b.normal_net +ℤ normal_part c)
      × ((add_to_bucket c b).normal_sales ≡ b.normal_sales + sales_part c)
unfolding add_to_bucket
bucket_parts c b = elim (Bool-cases (is_brazil_day_trade c)) [
  | inl e ↦ rw e (refl, omega int_laws, omega arith)
  | inr e ↦ rw e (omega int_laws, refl, refl)
]

month_days :
    (key : ℕ) (c : ClosedPosition) (ms : List Month)
    → days_net (add_to_month key c ms) ≡ days_net ms +ℤ day_part c
unfolding add_to_month
month_days key c [] = rw (bucket_parts c empty_bucket).0 (omega int_laws)
month_days key c (m ∷ ms) = elim (Bool-cases (key == m.key)) [
  | inl same ↦ rw (same, (bucket_parts c m.bucket).0) (omega int_laws)
  | inr differs ↦ elim (Bool-cases (ltb key m.key)) [
    | inl before ↦ rw (differs, before, (bucket_parts c empty_bucket).0) (omega int_laws)
    | inr after ↦ rw (differs, after, month_days key c ms) (omega int_laws)
  ]
]

month_gated :
    (g : ℕ → Bool) (key : ℕ) (c : ClosedPosition) (ms : List Month)
    → gated_net g (add_to_month key c ms)
      ≡ gated_net g ms +ℤ (if g key then normal_part c else pos 0)
unfolding add_to_month
month_gated g key c [] = elim (Bool-cases (g key)) [
  | inl on ↦ rw (on, (bucket_parts c empty_bucket).1) (omega int_laws)
  | inr off ↦ rw off (omega int_laws)
]
month_gated g key c (m ∷ ms) = elim (Bool-cases (key == m.key)) [
  | inl same ↦
      let e : key ≡ m.key = ground arith in
      elim (Bool-cases (g m.key)) [
        | inl on ↦ rw (same, e, on, (bucket_parts c m.bucket).1) (omega int_laws)
        | inr off ↦ rw (same, e, off) (omega int_laws)
      ]
  | inr differs ↦ elim (Bool-cases (ltb key m.key)) [
    | inl before ↦ elim (Bool-cases (g key)) [
      | inl on ↦ rw (differs, before, on, (bucket_parts c empty_bucket).1) (omega int_laws)
      | inr off ↦ rw (differs, before, off) (omega int_laws)
    ]
    | inr after ↦ rw (differs, after, month_gated g key c ms) (omega int_laws)
  ]
]

month_sales :
    (k key : ℕ) (c : ClosedPosition) (ms : List Month)
    → sales_at k (add_to_month key c ms) ≡ sales_at k ms + (if key == k then sales_part c else 0)
unfolding add_to_month
month_sales k key c [] = elim (Bool-cases (key == k)) [
  | inl on ↦ rw (on, (bucket_parts c empty_bucket).2) (omega arith)
  | inr off ↦ rw off refl
]
month_sales k key c (m ∷ ms) = elim (Bool-cases (key == m.key)) [
  | inl same ↦
      let e : key ≡ m.key = ground arith in
      elim (Bool-cases (m.key == k)) [
        | inl on ↦ rw (same, e, on, (bucket_parts c m.bucket).2) (omega arith)
        | inr off ↦ rw (same, e, off) (omega arith)
      ]
  | inr differs ↦ elim (Bool-cases (ltb key m.key)) [
    | inl before ↦ elim (Bool-cases (key == k)) [
      | inl on ↦ rw (differs, before, on, (bucket_parts c empty_bucket).2) (omega arith)
      | inr off ↦ rw (differs, before, off) (omega arith)
    ]
    | inr after ↦ rw (differs, after, month_sales k key c ms) (omega arith)
  ]
]

-- The months stand in their order.
abbrev pub IsAscending : List Month → Type 0
IsAscending [] = Unit
IsAscending (m ∷ ms) = All (λ (n : Month). m.key < n.key) ms × IsAscending ms

add-above :
    (low key : ℕ) (c : ClosedPosition) (ms : List Month)
    → low < key
    → All (λ (n : Month). low < n.key) ms
    → All (λ (n : Month). low < n.key) (add_to_month key c ms)
unfolding add_to_month
add-above low key c [] h all = (h, tt)
add-above low key c (m ∷ ms) h (a, all) = elim (Bool-cases (key == m.key)) [
  | inl same ↦ rw same (a, all)
  | inr differs ↦ elim (Bool-cases (ltb key m.key)) [
    | inl before ↦ rw (differs, before) (h, (a, all))
    | inr after ↦ rw (differs, after) (a, add-above low key c ms h all)
  ]
]

above_mono :
    (low high : ℕ) (ms : List Month)
    → low < high
    → All (λ (n : Month). high < n.key) ms
    → All (λ (n : Month). low < n.key) ms
above_mono low high [] h all = tt
above_mono low high (m ∷ ms) h (a, all) = (omega arith, above_mono low high ms h all)

add-IsAscending :
    (key : ℕ) (c : ClosedPosition) (ms : List Month)
    → IsAscending ms
    → IsAscending (add_to_month key c ms)
unfolding add_to_month
add-IsAscending key c [] h = (tt, tt)
add-IsAscending key c (m ∷ ms) (above, h) = elim (Bool-cases (key == m.key)) [
  | inl same ↦ rw same (above, h)
  | inr differs ↦ elim (Bool-cases (ltb key m.key)) [
    | inl before ↦
        rw (differs, before)
          ((ground arith, above_mono key m.key ms (ground arith) above), (above, h))
    | inr after ↦
        rw (differs, after)
          (add-above m.key key c ms (ground arith) above, add-IsAscending key c ms h)
  ]
]

no_sales_above : (k : ℕ) (ms : List Month) → All (λ (n : Month). k < n.key) ms → sales_at k ms ≡ 0
no_sales_above k [] h = refl
no_sales_above k (m ∷ ms) (a, h) =
    let differs : (m.key == k) ≡ false = ground arith in rw (differs, no_sales_above k ms h) refl

-- In ascending months the sales at the key of one are its own.
own_sales_behind :
    (m : Month) (ms ns : List Month)
    → All (λ (n : Month). m.key < n.key) ns
    → All (λ (n : Month). sales_at n.key ms ≡ n.bucket.normal_sales) ns
    → All (λ (n : Month). sales_at n.key (m ∷ ms) ≡ n.bucket.normal_sales) ns
own_sales_behind m ms [] above h = tt
own_sales_behind m ms (n ∷ ns) (a, above) (e, h) =
    let differs : (m.key == n.key) ≡ false = ground arith in
    (rw differs (omega (arith, e)), own_sales_behind m ms ns above h)

pub own_sales :
    (ms : List Month)
    → IsAscending ms
    → All (λ (n : Month). sales_at n.key ms ≡ n.bucket.normal_sales) ms
own_sales [] h = tt
own_sales (m ∷ ms) (above, h) =
    let same : (m.key == m.key) ≡ true = ground arith in
    (
      rw (same, no_sales_above m.key ms above) (omega arith),
      own_sales_behind m ms ms above (own_sales ms h),
    )

branch_same : {A : Type 0} (b : Bool) (x : A) → (if b then x else x) ≡ x
branch_same true x = refl
branch_same false x = refl

-- What the loop over the positions leaves.
pub record IsSummed (month_of : ℕ → ℕ) (cs : List ClosedPosition) (s r : Sorted) : Type 0 where
  pub days : days_net r.months ≡ days_net s.months +ℤ pnl_where is_day_trade cs
  pub normal :
      (g : ℕ → Bool)
      → gated_net g r.months
        ≡ gated_net g s.months
          +ℤ pnl_where (λ (c : ClosedPosition). is_normal c && g (month_of c.exit_date)) cs
  pub sales : (k : ℕ) → sales_at k r.months ≡ sales_at k s.months + sales_in month_of k cs
  pub foreign : r.foreign_net ≡ s.foreign_net +ℤ pnl_where is_foreign cs
  pub ascending : IsAscending r.months

pub sort_positions-IsSummed :
    (month_of : ℕ → ℕ) (cs : List ClosedPosition) (s : Sorted)
    → IsAscending s.months
    → IsSummed month_of cs s (sort_positions month_of cs s)
unfolding sort_positions sort_position
sort_positions-IsSummed month_of [] s h = record {
  days = omega int_laws;
  normal = λ g. omega int_laws;
  sales = λ k. omega arith;
  foreign = omega int_laws;
  ascending = h;
}
sort_positions-IsSummed month_of (c ∷ cs) s h = elim (Bool-cases (is_br c.asset_market_country)) [
  | inl here ↦
      let key = month_of c.exit_date in
      let ih =
        sort_positions-IsSummed month_of cs
          (record { months = add_to_month key c s.months; foreign_net = s.foreign_net })
          (add-IsAscending key c s.months h) in
      elim (Bool-cases (c.entry_date == c.exit_date)) [
        | inl day ↦ rw here (record {
          days = rw (ih.days, month_days key c s.months, here, day) (omega int_laws);
          normal = λ g.
              rw (ih.normal g, month_gated g key c s.months, here, day, branch_same (g key) (pos 0))
                (omega int_laws);
          sales = λ k.
              rw
                (
                  ih.sales k,
                  month_sales k key c s.months,
                  here,
                  day,
                  branch_same {A = ℕ} (key == k) 0,
                )
                (omega arith);
          foreign = rw (ih.foreign, here) (omega int_laws);
          ascending = ih.ascending;
        })
        | inr normal ↦ rw here (record {
          days = rw (ih.days, month_days key c s.months, here, normal) (omega int_laws);
          normal =
              λ g. rw (ih.normal g, month_gated g key c s.months, here, normal) (omega int_laws);
          sales = λ k. rw (ih.sales k, month_sales k key c s.months, here, normal) (omega arith);
          foreign = rw (ih.foreign, here) (omega int_laws);
          ascending = ih.ascending;
        })
      ]
  | inr abroad ↦
      let ih =
        sort_positions-IsSummed month_of cs
          (record { months = s.months; foreign_net = s.foreign_net +ℤ c.pnl }) h in
      rw abroad (record {
        days = rw (ih.days, abroad) (omega int_laws);
        normal = λ g. rw (ih.normal g, abroad) (omega int_laws);
        sales = λ k. rw (ih.sales k, abroad) (omega arith);
        foreign = rw (ih.foreign, abroad) (omega int_laws);
        ascending = ih.ascending;
      })
]
