-- ===== src/Holdings/Rows.antt =====
-- src/auto.rs: what one turn of the reconciliation leaves in the table.
use mlai_trade.Common.{
  ℕ, ◌-◌, ◌*◌, ◌≤◌, ◌<◌, ◌≡◌, refl, sym, ap, ◌∙◌, subst, ◌⊎◌, inl, inr, true, false, Option, none,
  some, [], ◌∷◌, ◌++◌, arith, ◌==◌,
}
use mlai_trade.Candidates.{opened, closed}
use mlai_trade.Holdings.{
  share, OpenAutoPosition, Row, World, State, entry_order_is_unfilled_or_active, map_row,
  update_row, insert_at, insert_copy, partial_row, closed_row, with_shares, row_with_shares,
}
use mlai_trade.Holdings.Turns.{shares_of, whole_shares, Turn}

-- The row is open with the shares and the cost basis of the position.
abbrev pub HeldIn : Option Row → OpenAutoPosition → Type 0
HeldIn found p =
    (row : Row) × (found ≡ some row)
    × (row.status ≡ opened)
    × (row.shares ≡ p.shares)
    × (row.cost_basis ≡ p.cost_basis)

-- What became of a position, by its row: closed with all its shares, since the provider has less than one;
-- open as it was, with an entry order that is not done; or open with the provider's whole shares.
pub data Outcome (w : World) (found : Option Row) (p : OpenAutoPosition) : Type 0 where
  sold_out :
      shares_of w p < share
      → (row : Row) → found ≡ some row
      → row.status ≡ closed
      → row.shares ≡ p.shares
      → Outcome w found p
  waiting :
      shares_of w p < share
      → w.latest_provider_sell_exit p ≡ none
      → entry_order_is_unfilled_or_active w p.order_id ≡ true
      → HeldIn found p
      → Outcome w found p
  matched :
      share ≤ shares_of w p → HeldIn found (with_shares (whole_shares w p) p) → Outcome w found p

same_id : (i : ℕ) → (i == i) ≡ true
same_id i = ground arith

pub update_row_here :
    (id : ℕ) (f : Row → Row) (rows : ℕ → Option Row) (row : Row)
    → rows id ≡ some row
    → update_row id f rows id ≡ some (f row)
update_row_here id f rows row h = rw (same_id id, h) refl

pub update_row_other :
    (id i : ℕ) (f : Row → Row) (rows : ℕ → Option Row)
    → (i == id) ≡ false
    → update_row id f rows i ≡ rows i
update_row_other id i f rows h = rw h refl

insert_at_other :
    (next i : ℕ) (found : Option Row) (rows : ℕ → Option Row)
    → i < next
    → insert_at next found rows i ≡ rows i
insert_at_other next i none rows h = refl
insert_at_other next i (some row) rows h = let e : (i == next) ≡ false = ground arith in rw e refl

pub insert_copy_other :
    (id i : ℕ) (f : Row → Row) (s : State) → i < s.next_id → (insert_copy id f s).rows i ≡ s.rows i
insert_copy_other id i f s h = insert_at_other s.next_id i (map_row f (s.rows id)) s.rows h

-- A turn touches the row of its position alone, apart from a new one.
pub Turn-frame :
    (w : World) (p : OpenAutoPosition) (s s' : State) (i : ℕ)
    → Turn w p s s'
    → (i == p.id) ≡ false
    → i < s.next_id
    → (s'.rows i ≡ s.rows i) × (s.next_id ≤ s'.next_id)
Turn-frame w p s s' i (Turn.waits h e u (r, n, k)) other old =
    (ap (λ (t : ℕ → Option Row). t i) r, omega (arith, n))
Turn-frame w p s s' i (Turn.closes h (r, n, k)) other old =
    (ap (λ (t : ℕ → Option Row). t i) r ∙ update_row_other p.id i _ s.rows other, omega (arith, n))
Turn-frame w p s s' i (Turn.splits fill h k e (r, n, kept)) other old = (
  ap (λ (t : ℕ → Option Row). t i) r
      ∙ update_row_other p.id i (row_with_shares (whole_shares w p) p)
          (insert_copy p.id (partial_row w p (p.shares - whole_shares w p) fill) s).rows other
      ∙ insert_copy_other p.id i (partial_row w p (p.shares - whole_shares w p) fill) s old,
  omega (arith, n),
)
Turn-frame w p s s' i (Turn.shrinks h k e (r, n, kept)) other old =
    (ap (λ (t : ℕ → Option Row). t i) r ∙ update_row_other p.id i _ s.rows other, omega (arith, n))
Turn-frame w p s s' i (Turn.raises h k (r, n, kept)) other old =
    (ap (λ (t : ℕ → Option Row). t i) r ∙ update_row_other p.id i _ s.rows other, omega (arith, n))
Turn-frame w p s s' i (Turn.stays h k (r, n, kept)) other old =
    (ap (λ (t : ℕ → Option Row). t i) r, omega (arith, n))

-- The row behind an adjustment.
adjusted-HeldIn :
    (p : OpenAutoPosition) (n : ℕ) (rows : ℕ → Option Row)
    → HeldIn (rows p.id) p
    → HeldIn (update_row p.id (row_with_shares n p) rows p.id) (with_shares n p)
adjusted-HeldIn p n rows (row, found, is_open, same, cost) =
    (row_with_shares n p row, update_row_here p.id _ rows row found, is_open, refl, refl)

at_row : (rows rows' : ℕ → Option Row) (i : ℕ) → rows ≡ rows' → rows i ≡ rows' i
at_row rows rows' i e = ap (λ (t : ℕ → Option Row). t i) e

-- The position that stayed, or none.
abbrev pub IsKept : State → State → ℕ → Type 0
IsKept s s' id =
    (s'.kept ≡ s.kept)
    ⊎ ((p : OpenAutoPosition) × (p.id ≡ id)
        × (s'.kept ≡ s.kept ++ (p ∷ []))
        × HeldIn (s'.rows id) p)

adjusted-Outcome :
    (w : World) (p : OpenAutoPosition) (s s' : State)
    → share ≤ shares_of w p
    → s'.rows ≡ update_row p.id (row_with_shares (whole_shares w p) p) s.rows
    → s'.kept ≡ s.kept ++ (with_shares (whole_shares w p) p ∷ [])
    → HeldIn (s.rows p.id) p
    → Outcome w (s'.rows p.id) p × IsKept s s' p.id
adjusted-Outcome w p s s' h r kept held =
    let held' : HeldIn (s'.rows p.id) (with_shares (whole_shares w p) p) =
      subst (λ (o : Option Row). HeldIn o (with_shares (whole_shares w p) p))
        (sym (at_row _ _ p.id r)) (adjusted-HeldIn p (whole_shares w p) s.rows held) in
    (Outcome.matched h held', inr (with_shares (whole_shares w p) p, refl, kept, held'))

-- A position whose row agrees with it comes to one of the outcomes, and stays with a row that agrees.
pub Turn-Outcome :
    (w : World) (p : OpenAutoPosition) (s s' : State)
    → Turn w p s s'
    → p.id < s.next_id
    → p.cost_basis ≡ p.entry_price * p.shares
    → HeldIn (s.rows p.id) p
    → Outcome w (s'.rows p.id) p × IsKept s s' p.id
Turn-Outcome w p s s' (Turn.waits h e u (r, n, k)) old cost held =
    let held' : HeldIn (s'.rows p.id) p =
      subst (λ (o : Option Row). HeldIn o p) (sym (at_row _ _ p.id r)) held in
    (Outcome.waiting h e u held', inr (p, refl, k, held'))
Turn-Outcome w p s s' (Turn.closes h (r, n, k)) old cost (row, found, is_open, same, cost') = (
  Outcome.sold_out h (closed_row w p (w.latest_provider_sell_exit p) row)
      (at_row _ _ p.id r ∙ update_row_here p.id _ s.rows row found) refl same,
  inl k,
)
Turn-Outcome w p s s' (Turn.splits fill h k e (r, n, kept)) old cost held =
    let copied = (insert_copy p.id (partial_row w p (p.shares - whole_shares w p) fill) s).rows in
    let before : HeldIn (copied p.id) p =
      subst (λ (o : Option Row). HeldIn o p)
        (sym
          (insert_copy_other p.id p.id (partial_row w p (p.shares - whole_shares w p) fill) s old))
        held in
    let held' : HeldIn (s'.rows p.id) (with_shares (whole_shares w p) p) =
      subst (λ (o : Option Row). HeldIn o (with_shares (whole_shares w p) p))
        (sym (at_row _ _ p.id r)) (adjusted-HeldIn p (whole_shares w p) copied before) in
    (Outcome.matched h held', inr (with_shares (whole_shares w p) p, refl, kept, held'))
Turn-Outcome w p s s' (Turn.shrinks h k e (r, n, kept)) old cost held =
    adjusted-Outcome w p s s' h r kept held
Turn-Outcome w p s s' (Turn.raises h k (r, n, kept)) old cost held =
    adjusted-Outcome w p s s' h r kept held
Turn-Outcome w p s s' (Turn.stays h k (r, n, kept)) old cost (row, found, is_open, same, cost') =
    let found' : s'.rows p.id ≡ some row = at_row _ _ p.id r ∙ found in
    let whole : whole_shares w p ≡ p.shares = omega (arith, k) in
    (
      Outcome.matched h (row, found', is_open, same ∙ sym whole, rw whole (cost' ∙ cost)),
      inr (p, refl, kept, (row, found', is_open, same, cost')),
    )
