-- ===== src/Holdings/InStep.antt =====
-- src/auto.rs: the positions in memory and the rows of the table, over the reconciliation.
use mlai_trade.Common.{
  ℕ, ◌*◌, ◌≤◌, ◌<◌, ◌≡◌, refl, sym, ◌∙◌, subst, inl, inr, false, Option, List, [], ◌∷◌, ◌++◌, arith,
  ◌==◌, All,
}
use mlai_trade.Holdings.{
  OpenAutoPosition, Row, World, State, reconcile_position, reconcile_loop,
  reconcile_open_positions_with_provider,
}
use mlai_trade.Holdings.Turns.{Turn, reconcile_position-Turn}
use mlai_trade.Holdings.Rows.{HeldIn, Outcome, IsKept, Turn-frame, Turn-Outcome}

abbrev pub Avoids : ℕ → List OpenAutoPosition → Type 0
Avoids id ps = All (λ (q : OpenAutoPosition). (id == q.id) ≡ false) ps

abbrev pub HaveDistinctIds : List OpenAutoPosition → Type 0
HaveDistinctIds [] = Unit
HaveDistinctIds (p ∷ ps) = Avoids p.id ps × HaveDistinctIds ps

-- The row of the position is in the table and agrees with it.
abbrev pub InStep : State → OpenAutoPosition → Type 0
InStep s p = (p.id < s.next_id) × HeldIn (s.rows p.id) p

abbrev pub IsCosted : OpenAutoPosition → Type 0
IsCosted p = p.cost_basis ≡ p.entry_price * p.shares

pub Turn-next :
    (w : World) (p : OpenAutoPosition) (s s' : State) → Turn w p s s' → s.next_id ≤ s'.next_id
Turn-next w p s s' (Turn.waits h e u (r, n, k)) = omega (arith, n)
Turn-next w p s s' (Turn.closes h (r, n, k)) = omega (arith, n)
Turn-next w p s s' (Turn.splits fill h k e (r, n, kept)) = omega (arith, n)
Turn-next w p s s' (Turn.shrinks h k e (r, n, kept)) = omega (arith, n)
Turn-next w p s s' (Turn.raises h k (r, n, kept)) = omega (arith, n)
Turn-next w p s s' (Turn.stays h k (r, n, kept)) = omega (arith, n)

Turn-InStep :
    (w : World) (p q : OpenAutoPosition) (s s' : State)
    → Turn w p s s'
    → (q.id == p.id) ≡ false
    → InStep s q
    → InStep s' q
Turn-InStep w p q s s' turn other (old, found) =
    let frame = Turn-frame w p s s' q.id turn other old in
    (omega (arith, frame.1), subst (λ (o : Option Row). HeldIn o q) (sym frame.0) found)

flip : (a b : ℕ) → (a == b) ≡ false → (b == a) ≡ false
flip a b h = ground arith

pub Turn-all :
    (w : World) (p : OpenAutoPosition) (s s' : State) (ps : List OpenAutoPosition)
    → Turn w p s s'
    → Avoids p.id ps
    → All (InStep s) ps
    → All (InStep s') ps
Turn-all w p s s' [] turn other h = tt
Turn-all w p s s' (q ∷ ps) turn (a, other) (b, h) =
    (Turn-InStep w p q s s' turn (flip p.id q.id a) b, Turn-all w p s s' ps turn other h)

-- The rest of the loop leaves the other rows alone.
loop-frame :
    (w : World) (ps : List OpenAutoPosition) (s : State) (i : ℕ)
    → Avoids i ps
    → i < s.next_id
    → (reconcile_loop w ps s).rows i ≡ s.rows i
unfolding reconcile_loop
loop-frame w [] s i avoids old = refl
loop-frame w (p ∷ ps) s i (a, avoids) old =
    let turn = reconcile_position-Turn w p s in
    loop-frame w ps (reconcile_position w p s) i avoids (omega (arith, old, Turn-next w p s _ turn))
    ∙ (Turn-frame w p s _ i turn a old).0

loop-Outcome :
    (w : World) (ps : List OpenAutoPosition) (s : State)
    → HaveDistinctIds ps
    → All IsCosted ps
    → All (InStep s) ps
    → All (λ (p : OpenAutoPosition). Outcome w ((reconcile_loop w ps s).rows p.id) p) ps
unfolding reconcile_loop
loop-Outcome w [] s distinct costs h = tt
loop-Outcome w (p ∷ ps) s (avoids, distinct) (cost, costs) ((old, found), h) =
    let turn = reconcile_position-Turn w p s in
    let next = reconcile_position w p s in
    (
      subst (λ (o : Option Row). Outcome w o p)
          (sym (loop-frame w ps next p.id avoids (omega (arith, old, Turn-next w p s next turn))))
          (Turn-Outcome w p s next turn old cost found).0,
      loop-Outcome w ps next distinct costs (Turn-all w p s next ps turn avoids h),
    )

-- The positions kept so far agree with their rows and are none of those still to come.
abbrev IsSettled : State → List OpenAutoPosition → OpenAutoPosition → Type 0
IsSettled s ps k = InStep s k × Avoids k.id ps

IsSettled-Turn :
    (w : World) (p : OpenAutoPosition) (s s' : State) (ps kept : List OpenAutoPosition)
    → Turn w p s s'
    → All (IsSettled s (p ∷ ps)) kept
    → All (IsSettled s' ps) kept
IsSettled-Turn w p s s' ps [] turn h = tt
IsSettled-Turn w p s s' ps (k ∷ kept) turn ((b, (a, avoids)), h) =
    ((Turn-InStep w p k s s' turn a b, avoids), IsSettled-Turn w p s s' ps kept turn h)

IsSettled-append :
    (s : State) (ps kept : List OpenAutoPosition) (p : OpenAutoPosition)
    → All (IsSettled s ps) kept
    → IsSettled s ps p
    → All (IsSettled s ps) (kept ++ (p ∷ []))
IsSettled-append s ps [] p h one = (one, tt)
IsSettled-append s ps (k ∷ kept) p (a, h) one = (a, IsSettled-append s ps kept p h one)

IsSettled-kept :
    (s s' : State) (ps : List OpenAutoPosition) (id : ℕ)
    → IsKept s s' id
    → id < s'.next_id
    → Avoids id ps
    → All (IsSettled s' ps) s.kept
    → All (IsSettled s' ps) s'.kept
IsSettled-kept s s' ps id (inl same) old avoids h = rw same h
IsSettled-kept s s' ps id (inr (p, e, more, found)) old avoids h =
    rw more (IsSettled-append s' ps s.kept p h ((rw e old, rw e found), rw e avoids))

loop-kept :
    (w : World) (ps : List OpenAutoPosition) (s : State)
    → HaveDistinctIds ps
    → All IsCosted ps
    → All (InStep s) ps
    → All (IsSettled s ps) s.kept
    → All (IsSettled (reconcile_loop w ps s) []) (reconcile_loop w ps s).kept
unfolding reconcile_loop
loop-kept w [] s distinct costs h kept = kept
loop-kept w (p ∷ ps) s (avoids, distinct) (cost, costs) ((old, found), h) kept =
    let turn = reconcile_position-Turn w p s in
    let next = reconcile_position w p s in
    loop-kept w ps next distinct costs (Turn-all w p s next ps turn avoids h) (
      IsSettled-kept s next ps p.id (Turn-Outcome w p s next turn old cost found).1
        (omega (arith, old, Turn-next w p s next turn)) avoids
        (IsSettled-Turn w p s next ps s.kept turn kept))

IsSettled-InStep :
    (s : State) (kept : List OpenAutoPosition) → All (IsSettled s []) kept → All (InStep s) kept
IsSettled-InStep s [] h = tt
IsSettled-InStep s (k ∷ kept) ((a, b), h) = (a, IsSettled-InStep s kept h)

-- From positions with distinct ids, whose cost bases are price times shares and whose open rows agree with
-- them: every position whose provider has less than one share is closed with all its shares, or waits
-- unchanged for an entry order that is not done, every other one is open with the provider's whole shares,
-- and every position that stays agrees with its open row.
pub reconcile-InStep :
    (w : World) (positions : List OpenAutoPosition) (s : State)
    → HaveDistinctIds positions
    → All IsCosted positions
    → All (InStep s) positions
    → All
        (λ (p : OpenAutoPosition).
          Outcome w ((reconcile_open_positions_with_provider w positions s).rows p.id) p)
        positions
      × All
          (InStep (reconcile_open_positions_with_provider w positions s))
          (reconcile_open_positions_with_provider w positions s).kept
unfolding reconcile_open_positions_with_provider
reconcile-InStep w positions s distinct costs h =
    let start = record s { kept = [] } in
    (
      loop-Outcome w positions start distinct costs h,
      IsSettled-InStep (reconcile_loop w positions start) (reconcile_loop w positions start).kept
          (loop-kept w positions start distinct costs h tt),
    )
