-- ===== src/Tax/Fifo/Periods.antt =====
-- The reported period in the first-in first-out matching of src/tax.rs.
use text.Mathlib.Text.{◌==◌ as str_eq}
use text.Mathlib.TextEquality.{eq_iff}
use text.Mathlib.TextPositions.{eq_refl}
use mlai_trade.Common.{
  ◌⊎◌, ◌<◌, true, false, All, sym, suc, ◌≤◌, ◌≡◌, refl, inl, inr, List, [], ◌∷◌, arith, length,
  Bool-cases, keep,
}
use mlai_trade.Tax.Positions.{FillActivity, OpenLot, ClosedPosition, Period, in_period}
use mlai_trade.Tax.Fifo.{
  Books, sell_lots, apply_sell, apply_fill, apply_fills, load_provider_fill_positions, no_books,
  is_queried, Key, key_eq, key_of, set_lots,
}
use mlai_trade.Tax.Fifo.Matches.{IsWithin, IsPart, loop_IsTwin, late_loop}

-- The lots of a key are the same in both books, or every fill of the key that is left is behind the end.
abbrev IsAligned :
    Period → List FillActivity → (Key → List OpenLot) → (Key → List OpenLot) → Key → Type 0
IsAligned p rest a b k =
    (a k ≡ b k) ⊎ All (λ (g : FillActivity). (key_eq k (key_of g) ≡ false) ⊎ (p.end < g.date)) rest

record IsTwinBooks (p : Period) (rest : List FillActivity) (a b : Books) : Type 0 where
  pub aligned : (k : Key) → IsAligned p rest a.lots b.lots k
  pub part : IsPart p a.report b.report

-- The order of the query: the fills of one key come by their dates.
abbrev pub IsOrdered : List FillActivity → Type 0
IsOrdered [] = Unit
IsOrdered (f ∷ fs) =
    All (λ (g : FillActivity). (key_eq (key_of f) (key_of g) ≡ false) ⊎ (f.date ≤ g.date)) fs
    × IsOrdered fs

key_eq_sound : (a b : Key) → key_eq a b ≡ true → a ≡ b
key_eq_sound a b h =
    let provider : a.provider ≡ b.provider = (eq_iff a.provider b.provider).0 (ground arith) in
    let account : a.account_ref ≡ b.account_ref =
      (eq_iff a.account_ref b.account_ref).0 (ground arith) in
    let paper : a.paper_account ≡ b.paper_account = ground arith in
    let symbol : a.symbol ≡ b.symbol = (eq_iff a.symbol b.symbol).0 (ground arith) in
    λ i. record {
      provider = provider i;
      account_ref = account i;
      paper_account = paper i;
      symbol = symbol i;
    }

key_eq_refl : (a : Key) → key_eq a a ≡ true
key_eq_refl a = ground (arith, eq_refl a.provider, eq_refl a.account_ref, eq_refl a.symbol)

-- What holds of the keys behind a fill holds without it.
IsAligned-tail :
    (p : Period) (f : FillActivity) (rest : List FillActivity) (a b : Key → List OpenLot) (k : Key)
    → IsAligned p (f ∷ rest) a b k
    → IsAligned p rest a b k
IsAligned-tail p f rest a b k (inl same) = inl same
IsAligned-tail p f rest a b k (inr (_, late)) = inr late

tail-IsTwinBooks :
    (p : Period) (f : FillActivity) (rest : List FillActivity) (a b : Books)
    → IsTwinBooks p (f ∷ rest) a b
    → IsTwinBooks p rest a b
tail-IsTwinBooks p f rest a b h = record {
  aligned = λ k. IsAligned-tail p f rest a.lots b.lots k (h.aligned k);
  part = h.part;
}

-- A fill within the period finds the same lots in both books.
same_at :
    (p : Period) (f : FillActivity) (rest : List FillActivity) (a b : Key → List OpenLot)
    → f.date ≤ p.end
    → IsAligned p (f ∷ rest) a b (key_of f)
    → a (key_of f) ≡ b (key_of f)
same_at p f rest a b within (inl same) = same
same_at p f rest a b within (inr (inl other, _)) =
    absurd (ground (arith, other, key_eq_refl (key_of f)))
same_at p f rest a b within (inr (inr late, _)) = absurd (omega arith)

-- The same lots go to the fill's key in both books.
set-IsAligned :
    (p : Period) (f : FillActivity) (rest : List FillActivity) (a b : Key → List OpenLot)
    (lots : List OpenLot) (k : Key)
    → IsAligned p (f ∷ rest) a b k
    → IsAligned p rest (set_lots (key_of f) lots a) (set_lots (key_of f) lots b) k
set-IsAligned p f rest a b lots k h = elim (Bool-cases (key_eq (key_of f) k)) [
  | inl here ↦ inl (rw here refl)
  | inr other ↦ elim (IsAligned-tail p f rest a b k h) [
    | inl same ↦ inl (rw (other, same) refl)
    | inr late ↦ inr late
  ]
]

apply_fill-IsTwinBooks :
    (p q : Period) (f : FillActivity) (rest : List FillActivity) (a b : Books)
    → IsWithin p q
    → f.date ≤ p.end
    → IsTwinBooks p (f ∷ rest) a b
    → IsTwinBooks p rest (apply_fill p f a) (apply_fill q f b)
unfolding apply_fill apply_sell sell_lots
apply_fill-IsTwinBooks p q f rest a b w within h =
    let same = same_at p f rest a.lots b.lots within (h.aligned (key_of f)) in
    elim (Bool-cases (str_eq f.side "buy")) [
      | inl buys ↦
          rw (buys, same)
            (record {
              aligned = λ k. set-IsAligned p f rest a.lots b.lots _ k (h.aligned k);
              part = h.part;
            })
      | inr other ↦ elim (Bool-cases (str_eq f.side "sell")) [
        | inr neither ↦ rw (other, neither) (tail-IsTwinBooks p f rest a b h)
        | inl sells ↦
            let lots = b.lots (key_of f) in
            let twin =
              loop_IsTwin p q f (suc (length lots)) lots f.qty a.report b.report w h.part in
            rw (other, sells, same, twin.same_lots)
              (record {
                aligned = λ k. set-IsAligned p f rest a.lots b.lots _ k (h.aligned k);
                part = twin.part;
              })
      ]
    ]

-- Behind a late fill its key's fills are all late.
late_key :
    (p : Period) (f : FillActivity) (k : Key) (rest : List FillActivity)
    → p.end < f.date
    → key_eq (key_of f) k ≡ true
    → All (λ (g : FillActivity). (key_eq (key_of f) (key_of g) ≡ false) ⊎ (f.date ≤ g.date)) rest
    → All (λ (g : FillActivity). (key_eq k (key_of g) ≡ false) ⊎ (p.end < g.date)) rest
late_key p f k [] late here h = tt
late_key p f k (g ∷ rest) late here (inl other, h) =
    (inl (rw (sym (key_eq_sound (key_of f) k here)) other), late_key p f k rest late here h)
late_key p f k (g ∷ rest) late here (inr behind, h) =
    (inr (omega arith), late_key p f k rest late here h)

late-IsAligned :
    (p : Period) (f : FillActivity) (rest : List FillActivity) (a b : Key → List OpenLot)
    (lots : List OpenLot) (k : Key)
    → p.end < f.date
    → All (λ (g : FillActivity). (key_eq (key_of f) (key_of g) ≡ false) ⊎ (f.date ≤ g.date)) rest
    → IsAligned p (f ∷ rest) a b k
    → IsAligned p rest a (set_lots (key_of f) lots b) k
late-IsAligned p f rest a b lots k late order h = elim (Bool-cases (key_eq (key_of f) k)) [
  | inl here ↦ inr (late_key p f k rest late here order)
  | inr other ↦ elim (IsAligned-tail p f rest a b k h) [
    | inl same ↦ inl (rw (other, same) refl)
    | inr behind ↦ inr behind
  ]
]

late_fill-IsTwinBooks :
    (p q : Period) (f : FillActivity) (rest : List FillActivity) (a b : Books)
    → p.end < f.date
    → All (λ (g : FillActivity). (key_eq (key_of f) (key_of g) ≡ false) ⊎ (f.date ≤ g.date)) rest
    → IsTwinBooks p (f ∷ rest) a b
    → IsTwinBooks p rest a (apply_fill q f b)
unfolding apply_fill apply_sell sell_lots
late_fill-IsTwinBooks p q f rest a b late order h = elim (Bool-cases (str_eq f.side "buy")) [
  | inl buys ↦ rw buys (record {
    aligned = λ k. late-IsAligned p f rest a.lots b.lots _ k late order (h.aligned k);
    part = h.part;
  })
  | inr other ↦ elim (Bool-cases (str_eq f.side "sell")) [
    | inr neither ↦ rw (other, neither) (tail-IsTwinBooks p f rest a b h)
    | inl sells ↦
        let lots = b.lots (key_of f) in
        rw (other, sells)
          (record {
            aligned = λ k. late-IsAligned p f rest a.lots b.lots _ k late order (h.aligned k);
            part = late_loop p q f (suc (length lots)) lots f.qty a.report b.report late h.part;
          })
  ]
]

apply_fills-IsTwinBooks :
    (p q : Period) (rows : List FillActivity) (a b : Books)
    → IsWithin p q
    → IsOrdered rows
    → IsTwinBooks p rows a b
    → IsTwinBooks p []
        (apply_fills p (keep (is_queried p) rows) a)
        (apply_fills q (keep (is_queried q) rows) b)
unfolding apply_fills
apply_fills-IsTwinBooks p q [] a b w order h = h
apply_fills-IsTwinBooks p q (f ∷ rows) a b w (order, ordered) h =
    elim (Bool-cases (is_queried p f)) [
      | inl soon ↦
          let wide : is_queried q f ≡ true = ground (arith, w.ends) in
          rw (soon, wide)
            (apply_fills-IsTwinBooks p q rows _ _ w ordered
              (apply_fill-IsTwinBooks p q f rows a b w (ground arith) h))
      | inr not_soon ↦ elim (Bool-cases (is_queried q f)) [
        | inr never ↦
            rw (not_soon, never)
              (apply_fills-IsTwinBooks p q rows a b w ordered (tail-IsTwinBooks p f rows a b h))
        | inl later ↦
            rw (not_soon, later)
              (apply_fills-IsTwinBooks p q rows _ _ w ordered
                (late_fill-IsTwinBooks p q f rows a b (ground arith) order h))
      ]
    ]

-- If the rows of one key come by their dates, as in the query's order: the positions reported for a period
-- are the positions of a wider period, over the same rows, that closed within it. So neither the matching
-- nor a cost basis depends on the period asked for, though the query leaves the rows behind its end out.
pub load_provider_fill_positions-period :
    (p q : Period) (rows : List FillActivity)
    → IsWithin p q
    → IsOrdered rows
    → (load_provider_fill_positions p rows).positions
      ≡ keep
          (λ (c : ClosedPosition). in_period p c.exit_date)
          (load_provider_fill_positions q rows).positions
unfolding load_provider_fill_positions
load_provider_fill_positions-period p q rows w ordered =
    (apply_fills-IsTwinBooks p q rows no_books no_books w ordered
      (record { aligned = λ k. inl refl; part = refl })).part
