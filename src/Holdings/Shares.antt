-- ===== src/Holdings/Shares.antt =====
-- src/auto.rs: the shares that the table's rows hold together, before and behind the reconciliation.
use mlai_trade.Common.{
  ℕ, zero, suc, ◌+◌, ◌-◌, ◌*◌, ◌≤◌, ◌<◌, ◌≡◌, refl, sym, ap, ◌∙◌, ◌⊎◌, inl, inr, true, false, not,
  ◌&&◌, Option, none, some, is_some, subst, List, [], ◌∷◌, if◌then◌else◌, arith, ltb, leb, ◌==◌,
  All, Bool-cases,
}
use mlai_trade.Holdings.{
  share, OpenAutoPosition, Row, World, State, map_row, update_row, insert_at, insert_copy,
  partial_row, closed_row, row_with_shares, reconcile_position, reconcile_loop,
  reconcile_open_positions_with_provider,
}
use mlai_trade.Holdings.Turns.{shares_of, whole_shares, Turn, reconcile_position-Turn}
use mlai_trade.Holdings.Rows.{update_row_here, update_row_other, insert_copy_other}
use mlai_trade.Holdings.InStep.{HaveDistinctIds, InStep, Turn-all}

abbrev shares_in : Option Row → ℕ
shares_in none = 0
shares_in (some row) = row.shares

-- The shares of the rows with ids below a bound.
abbrev pub total_shares : (ℕ → Option Row) → ℕ → ℕ
total_shares rows zero = 0
total_shares rows (suc n) = shares_in (rows n) + total_shares rows n

update_above :
    (rows : ℕ → Option Row) (id : ℕ) (f : Row → Row) (n : ℕ)
    → n ≤ id
    → total_shares (update_row id f rows) n ≡ total_shares rows n
update_above rows id f zero h = refl
update_above rows id f (suc n) h =
    rw (update_row_other id n f rows (ground arith), update_above rows id f n (omega arith)) refl

update_total :
    (rows : ℕ → Option Row) (id : ℕ) (f : Row → Row) (row : Row) (n : ℕ)
    → rows id ≡ some row
    → id < n
    → total_shares (update_row id f rows) n + row.shares ≡ total_shares rows n + (f row).shares
update_total rows id f row zero h k = absurd (omega arith)
update_total rows id f row (suc n) h k = elim (Bool-cases (n == id)) [
  | inl same ↦
      let e : n ≡ id = ground arith in
      rw (e, update_row_here id f rows row h, h, update_above rows id f id (omega arith))
        (omega arith)
  | inr other ↦
      let rest = update_total rows id f row n h (ground arith) in
      rw (update_row_other id n f rows other) (omega (arith, rest))
]

insert_above :
    (rows : ℕ → Option Row) (next : ℕ) (row : Row) (n : ℕ)
    → n ≤ next
    → total_shares (insert_at next (some row) rows) n ≡ total_shares rows n
insert_above rows next row zero h = refl
insert_above rows next row (suc n) h =
    let other : (n == next) ≡ false = ground arith in
    rw (other, insert_above rows next row n (omega arith)) refl

copy_total :
    (s : State) (id : ℕ) (f : Row → Row) (row : Row)
    → s.rows id ≡ some row
    → total_shares (insert_copy id f s).rows (suc s.next_id)
      ≡ total_shares s.rows s.next_id + (f row).shares
copy_total s id f row h =
    let here : (s.next_id == s.next_id) ≡ true = ground arith in
    subst
      (λ (o : Option Row).
        total_shares (insert_at s.next_id (map_row f o) s.rows) (suc s.next_id)
        ≡ total_shares s.rows s.next_id + (f row).shares)
      (sym h)
      (rw here (omega (arith, insert_above s.rows s.next_id (f row) s.next_id (omega arith))))

-- The shares that leave the table unrecorded: the provider has fewer, and no exit is found.
abbrev pub unrecorded : World → OpenAutoPosition → ℕ
unrecorded w p =
    if leb share (shares_of w p)
      && ltb (shares_of w p) (p.shares * share)
      && not (is_some (w.latest_provider_sell_exit p))
    then p.shares - whole_shares w p
    else 0

-- The shares that the provider has beyond the position's.
abbrev pub gained : World → OpenAutoPosition → ℕ
gained w p =
    if leb share (shares_of w p) && ltb (p.shares * share) (shares_of w p)
    then whole_shares w p - p.shares
    else 0

no_amounts :
    (w : World) (p : OpenAutoPosition)
    → (shares_of w p < share) ⊎ (shares_of w p ≡ p.shares * share)
    → (unrecorded w p ≡ 0) × (gained w p ≡ 0)
no_amounts w p h = ground arith

fewer_amounts :
    (w : World) (p : OpenAutoPosition)
    → share ≤ shares_of w p
    → shares_of w p < p.shares * share
    → (unrecorded w p
        ≡ (if is_some (w.latest_provider_sell_exit p) then 0 else p.shares - whole_shares w p))
      × (gained w p ≡ 0)
      × (whole_shares w p ≤ p.shares)
fewer_amounts w p h k = ground arith

more_amounts :
    (w : World) (p : OpenAutoPosition)
    → share ≤ shares_of w p
    → p.shares * share < shares_of w p
    → (unrecorded w p ≡ 0)
      × (gained w p ≡ whole_shares w p - p.shares)
      × (p.shares ≤ whole_shares w p)
more_amounts w p h k = ground arith

-- The total behind a turn, by its table.
total_of :
    (rows rows' : ℕ → Option Row) (next next' : ℕ)
    → rows ≡ rows'
    → next ≡ next'
    → total_shares rows next ≡ total_shares rows' next'
total_of rows rows' next next' r n = rw (r, n) refl

Turn-total :
    (w : World) (p : OpenAutoPosition) (s s' : State)
    → Turn w p s s'
    → InStep s p
    → total_shares s'.rows s'.next_id + unrecorded w p ≡ total_shares s.rows s.next_id + gained w p
Turn-total w p s s' (Turn.waits h e u (r, n, k)) step =
    omega (arith, total_of _ _ _ _ r n, no_amounts w p (inl h))
Turn-total w p s s' (Turn.closes h (r, n, k)) (old, (row, found, is_open, same, cost)) = omega (
  arith,
  total_of _ _ _ _ r n,
  no_amounts w p (inl h),
  update_total s.rows p.id (closed_row w p (w.latest_provider_sell_exit p)) row s.next_id found old,
)
Turn-total w p s s' (Turn.splits fill h k e (r, n, kept)) (old, (row, found, is_open, same, cost)) =
    let copy = partial_row w p (p.shares - whole_shares w p) fill in
    let none_lost : unrecorded w p ≡ 0 =
      (fewer_amounts w p h k).0
      ∙ ap (λ x. if is_some x then 0 else p.shares - whole_shares w p) e in
    omega (
      arith,
      total_of _ _ _ _ r n,
      none_lost,
      fewer_amounts w p h k,
      same,
      copy_total s p.id copy row found,
      update_total (insert_copy p.id copy s).rows p.id (row_with_shares (whole_shares w p) p) row
          (suc s.next_id) (insert_copy_other p.id p.id copy s old ∙ found) (omega arith),
    )
Turn-total w p s s' (Turn.shrinks h k e (r, n, kept)) (old, (row, found, is_open, same, cost)) =
    let lost : unrecorded w p ≡ p.shares - whole_shares w p =
      (fewer_amounts w p h k).0
      ∙ ap (λ x. if is_some x then 0 else p.shares - whole_shares w p) e in
    omega (
      arith,
      total_of _ _ _ _ r n,
      lost,
      fewer_amounts w p h k,
      same,
      update_total s.rows p.id (row_with_shares (whole_shares w p) p) row s.next_id found old,
    )
Turn-total w p s s' (Turn.raises h k (r, n, kept)) (old, (row, found, is_open, same, cost)) =
    omega (
      arith,
      total_of _ _ _ _ r n,
      more_amounts w p h k,
      same,
      update_total s.rows p.id (row_with_shares (whole_shares w p) p) row s.next_id found old,
    )
Turn-total w p s s' (Turn.stays h k (r, n, kept)) step =
    omega (arith, total_of _ _ _ _ r n, no_amounts w p (inr k))

abbrev pub sum_over : (OpenAutoPosition → ℕ) → List OpenAutoPosition → ℕ
sum_over f [] = 0
sum_over f (p ∷ ps) = f p + sum_over f ps

loop_total :
    (w : World) (ps : List OpenAutoPosition) (s : State)
    → HaveDistinctIds ps
    → All (InStep s) ps
    → total_shares (reconcile_loop w ps s).rows (reconcile_loop w ps s).next_id
        + sum_over (unrecorded w) ps
      ≡ total_shares s.rows s.next_id + sum_over (gained w) ps
unfolding reconcile_loop
loop_total w [] s distinct h = refl
loop_total w (p ∷ ps) s (avoids, distinct) (one, h) =
    let turn = reconcile_position-Turn w p s in
    let next = reconcile_position w p s in
    omega (
      arith,
      Turn-total w p s next turn one,
      loop_total w ps next distinct (Turn-all w p s next ps turn avoids h),
    )

-- From positions with distinct ids whose open rows agree with them: the rows hold together the shares they
-- held before, with those that the provider has beyond a position's, and without those that it has fewer of a
-- position where no exit is found.
pub reconcile-total_shares :
    (w : World) (positions : List OpenAutoPosition) (s : State)
    → HaveDistinctIds positions
    → All (InStep s) positions
    → total_shares
          (reconcile_open_positions_with_provider w positions s).rows
          (reconcile_open_positions_with_provider w positions s).next_id
        + sum_over (unrecorded w) positions
      ≡ total_shares s.rows s.next_id + sum_over (gained w) positions
unfolding reconcile_open_positions_with_provider
reconcile-total_shares w positions s distinct h =
    loop_total w positions (record s { kept = [] }) distinct h
