-- ===== src/Holdings/Turns.antt =====
-- src/auto.rs: the ways that one position goes through the reconciliation.
use mlai_trade.Common.{
  ℕ, suc, ◌-◌, ◌*◌, ◌/◌, ◌≤◌, ◌<◌, ◌≡◌, refl, inl, inr, Bool, true, false, Option, none, some, List,
  [], ◌∷◌, ◌++◌, arith, ltb, Bool-cases,
}
use mlai_trade.Remote.Text.{trim, to_ascii_uppercase}
use mlai_trade.Holdings.{
  share, OpenAutoPosition, Row, ProviderExitFill, World, State, provider_shares,
  entry_order_is_unfilled_or_active, update_row, insert_copy, closed_row, partial_row, record_exit,
  absent, with_shares, row_with_shares, adjust, split_off, reconcile_position,
}

-- The provider's shares of a position.
abbrev pub shares_of : World → OpenAutoPosition → ℕ
shares_of w p = provider_shares w.provider_positions (to_ascii_uppercase (trim p.symbol)) 0

abbrev pub whole_shares : World → OpenAutoPosition → ℕ
whole_shares w p = shares_of w p / share

-- The table, its next id and the positions that stay, behind a turn.
abbrev pub Leaves : State → (ℕ → Option Row) → ℕ → List OpenAutoPosition → Type 0
Leaves s rows next kept = (s.rows ≡ rows) × (s.next_id ≡ next) × (s.kept ≡ kept)

abbrev pub appended : State → OpenAutoPosition → List OpenAutoPosition
appended s p = s.kept ++ (p ∷ [])

-- A turn on the position `p`, from `s` to `s'`.
pub data Turn (w : World) (p : OpenAutoPosition) (s s' : State) : Type 0 where
  waits :
      shares_of w p < share
      → w.latest_provider_sell_exit p ≡ none
      → entry_order_is_unfilled_or_active w p.order_id ≡ true
      → Leaves s' s.rows s.next_id (appended s p)
      → Turn w p s s'
  closes :
      shares_of w p < share
      → Leaves s'
          (update_row p.id (closed_row w p (w.latest_provider_sell_exit p)) s.rows)
          s.next_id
          s.kept
      → Turn w p s s'
  splits :
      (fill : ProviderExitFill)
      → share ≤ shares_of w p
      → shares_of w p < p.shares * share
      → w.latest_provider_sell_exit p ≡ some fill
      → Leaves s'
          (update_row p.id
            (row_with_shares (whole_shares w p) p)
            (insert_copy p.id (partial_row w p (p.shares - whole_shares w p) fill) s).rows)
          (suc s.next_id)
          (appended s (with_shares (whole_shares w p) p))
      → Turn w p s s'
  shrinks :
      share ≤ shares_of w p
      → shares_of w p < p.shares * share
      → w.latest_provider_sell_exit p ≡ none
      → Leaves s'
          (update_row p.id (row_with_shares (whole_shares w p) p) s.rows)
          s.next_id
          (appended s (with_shares (whole_shares w p) p))
      → Turn w p s s'
  raises :
      share ≤ shares_of w p
      → p.shares * share < shares_of w p
      → Leaves s'
          (update_row p.id (row_with_shares (whole_shares w p) p) s.rows)
          s.next_id
          (appended s (with_shares (whole_shares w p) p))
      → Turn w p s s'
  stays :
      share ≤ shares_of w p
      → shares_of w p ≡ p.shares * share
      → Leaves s' s.rows s.next_id (appended s p)
      → Turn w p s s'

absent-Turn :
    (w : World) (p : OpenAutoPosition) (s : State) (exit : Option ProviderExitFill)
    (unfilled : Bool)
    → shares_of w p < share
    → w.latest_provider_sell_exit p ≡ exit
    → entry_order_is_unfilled_or_active w p.order_id ≡ unfilled
    → Turn w p s (absent w p exit unfilled s)
unfolding absent record_exit
absent-Turn w p s none true h e u = Turn.waits h e u (refl, refl, refl)
absent-Turn w p s none false h e u = Turn.closes h (rw e (refl, refl, refl))
absent-Turn w p s (some fill) unfilled h e u = Turn.closes h (rw e (refl, refl, refl))

less-Turn :
    (w : World) (p : OpenAutoPosition) (s : State) (exit : Option ProviderExitFill)
    → share ≤ shares_of w p
    → shares_of w p < p.shares * share
    → w.latest_provider_sell_exit p ≡ exit
    → Turn w p s (adjust (whole_shares w p) p (split_off w p (p.shares - whole_shares w p) exit s))
unfolding split_off record_exit
less-Turn w p s none h k e = Turn.shrinks h k e (refl, refl, refl)
less-Turn w p s (some fill) h k e = Turn.splits fill h k e (refl, refl, refl)

-- Every position goes through one of the turns.
pub reconcile_position-Turn :
    (w : World) (p : OpenAutoPosition) (s : State) → Turn w p s (reconcile_position w p s)
unfolding reconcile_position
reconcile_position-Turn w p s = elim (Bool-cases (ltb (shares_of w p) share)) [
  | inl gone ↦ rw (reconcile_position, gone) (absent-Turn w p s _ _ (ground arith) refl refl)
  | inr held ↦ elim (Bool-cases (ltb (shares_of w p) (p.shares * share))) [
    | inl fewer ↦
        let sold : ltb 0 (p.shares - whole_shares w p) ≡ true = ground arith in
        rw (reconcile_position, held, fewer, sold)
          (less-Turn w p s _ (ground arith) (ground arith) refl)
    | inr no_fewer ↦ elim (Bool-cases (ltb (p.shares * share) (shares_of w p))) [
      | inl more ↦
          rw (reconcile_position, held, no_fewer, more)
            (Turn.raises (ground arith) (ground arith) (refl, refl, refl))
      | inr same ↦
          rw (reconcile_position, held, no_fewer, same)
            (Turn.stays (ground arith) (ground arith) (refl, refl, refl))
    ]
  ]
]
