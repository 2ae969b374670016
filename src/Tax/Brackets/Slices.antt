-- ===== src/Tax/Brackets/Slices.antt =====
-- The progressive tax of src/tax.rs against the sum over the slices of every bracket.
use mlai_trade.Common.{
  ◌≡◌, ap, sym, ◌∙◌, Option, none, some, List, [], ◌∷◌, arith, inl, inr, Option-cases, Bool-cases,
}
use mlai_trade.Common.Int.{
  ℤ, pos, ◌≤ℤ◌, ◌+ℤ◌, ◌-ℤ◌, ◌*ℤ◌, max_ℤ, min_ℤ, leb_ℤ, ltb_ℤ, max_ℤ_left, max_ℤ_right, min_ℤ_bounds,
  max_ℤ_bounds, min_ℤ_left, min_ℤ_right, +ℤ-*ℤ, *ℤ_comm, int_laws, zero-*ℤ, *ℤ_nonneg, *ℤ_mono,
}
use mlai_trade.Tax.Brackets.{
  OrdinaryBracket, whole, up_to, add_slice, progressive_loop, progressive_tax, capital_gain_tax,
}
use mlai_trade.Tax.Brackets.Valid.{IsTable, IsRate}

-- Every bracket taxes the part of the income that lies in it; no bracket stops the sum.
abbrev pub slices : ℤ → ℤ → List OrdinaryBracket → ℤ
slices income prev [] = pos 0
slices income prev (b ∷ bs) =
    max_ℤ (pos 0) (up_to income b.upper -ℤ prev) *ℤ b.rate
    +ℤ elim b.upper [ none ↦ pos 0 | some u ↦ slices income u bs ]

pub slices_above :
    (bs : List OrdinaryBracket) (income prev : ℤ)
    → income ≤ℤ prev
    → IsTable prev bs
    → slices income prev bs ≡ pos 0
slices_above [] income prev h t = absurd t
slices_above (b ∷ bs) income prev h (r, t) = elim (Option-cases b.upper) [
  | inl e ↦ rw (e, max_ℤ_left (pos 0) (income -ℤ prev) (omega int_laws), zero-*ℤ) (omega int_laws)
  | inr (u, e) ↦
      let (above, t') = rw e at t in
      rw
        (
          e,
          max_ℤ_left (pos 0) (min_ℤ income u -ℤ prev) (omega (int_laws, (min_ℤ_bounds income u).1)),
          zero-*ℤ,
        )
        (rw (slices_above bs income u (omega int_laws) t') (omega int_laws))
]

add_slice_lem :
    (tax amount rate : ℤ) → add_slice tax amount rate ≡ tax +ℤ max_ℤ (pos 0) amount *ℤ rate
unfolding add_slice
add_slice_lem tax amount rate = elim (Bool-cases (ltb_ℤ (pos 0) amount)) [
  | inl e ↦ rw (max_ℤ_right (pos 0) amount (ground arith), e)
  | inr e ↦ rw (max_ℤ_left (pos 0) amount (ground arith), zero-*ℤ, e) (omega int_laws)
]

loop_slices :
    (bs : List OrdinaryBracket) (income prev tax : ℤ)
    → IsTable prev bs
    → progressive_loop income prev tax bs ≡ tax +ℤ slices income prev bs
unfolding progressive_loop
loop_slices [] income prev tax t = absurd t
loop_slices (b ∷ bs) income prev tax (r, t) = elim (Option-cases b.upper) [
  | inl e ↦ rw (e, progressive_loop, add_slice_lem, e) (omega int_laws)
  | inr (u, e) ↦
      let (above, t') = rw e at t in
      rw (e, progressive_loop)
        (elim (Bool-cases (leb_ℤ income u)) [
          | inl within ↦
              rw (within, add_slice_lem, e)
                (rw (slices_above bs income u (ground arith) t') (omega int_laws))
          | inr beyond ↦
              rw (beyond, loop_slices bs income u _ t', add_slice_lem, e) (omega int_laws)
        ])
]

-- On a valid table the loop that stops at the income's bracket gives the sum over the slices of all
-- brackets, for every income.
pub progressive_tax-eq-slices :
    (income : ℤ) (bs : List OrdinaryBracket)
    → IsTable (pos 0) bs
    → progressive_tax income bs ≡ slices income (pos 0) bs
unfolding progressive_tax
progressive_tax-eq-slices income bs t = elim (Bool-cases (leb_ℤ income (pos 0))) [
  | inl low ↦ rw low (sym (slices_above bs income (pos 0) (ground arith) t))
  | inr high ↦ rw high (rw (loop_slices bs income (pos 0) (pos 0) t) (omega int_laws))
]

-- The part of an amount above a bound.
abbrev over : ℤ → ℤ → ℤ
over x p = max_ℤ (pos 0) (x -ℤ p)

up_to_mono : (x y : ℤ) (u : Option ℤ) → x ≤ℤ y → up_to x u ≤ℤ up_to y u
up_to_mono x y none h = h
up_to_mono x y (some u) h = grind (int_laws, min_ℤ_bounds x u, min_ℤ_bounds y u)

over_mono : (x y p : ℤ) → x ≤ℤ y → over x p ≤ℤ over y p
over_mono x y p h = grind (int_laws, max_ℤ_bounds (pos 0) (x -ℤ p), max_ℤ_bounds (pos 0) (y -ℤ p))

-- A product with a rate is at most the whole.
rate_part : (d r : ℤ) → pos 0 ≤ℤ d → r ≤ℤ whole → d *ℤ r ≤ℤ d *ℤ whole
rate_part d r h high = rw (*ℤ_comm d r, *ℤ_comm d whole) (*ℤ_mono r whole d high h)

-- Between two incomes the tax of one bracket grows by at least nothing and at most the difference.
slice_growth :
    (a c r : ℤ)
    → a ≤ℤ c
    → IsRate r
    → (a *ℤ r ≤ℤ c *ℤ r) × (c *ℤ r +ℤ a *ℤ whole ≤ℤ a *ℤ r +ℤ c *ℤ whole)
slice_growth a c r h (low, high) =
    let whole_part = rate_part (c -ℤ a) r (omega int_laws) high in
    let split : c ≡ a +ℤ (c -ℤ a) = omega int_laws in
    let cr : c *ℤ r ≡ a *ℤ r +ℤ (c -ℤ a) *ℤ r = ap (λ (t : ℤ). t *ℤ r) split ∙ +ℤ-*ℤ a (c -ℤ a) r in
    let cw : c *ℤ whole ≡ a *ℤ whole +ℤ (c -ℤ a) *ℤ whole =
      ap (λ (t : ℤ). t *ℤ whole) split ∙ +ℤ-*ℤ a (c -ℤ a) whole in
    (*ℤ_mono a c r h low, rw (cr, cw) (omega int_laws))

-- The amount of a closed bracket and the amount above its bound make up the amount above its start.
over_split : (x p u : ℤ) → p ≤ℤ u → over x p ≡ max_ℤ (pos 0) (min_ℤ x u -ℤ p) +ℤ over x u
over_split x p u h = elim (Bool-cases (leb_ℤ x u)) [
  | inl within ↦
      rw
        (
          min_ℤ_left x u (ground arith),
          max_ℤ_left (pos 0) (x -ℤ u) (let k : x ≤ℤ u = ground arith in omega int_laws),
        )
        (omega int_laws)
  | inr beyond ↦
      let k : u ≤ℤ x = ground arith in
      rw
        (
          min_ℤ_right x u k,
          max_ℤ_right (pos 0) (x -ℤ p) (omega int_laws),
          max_ℤ_right (pos 0) (x -ℤ u) (omega int_laws),
          max_ℤ_right (pos 0) (u -ℤ p) (omega int_laws),
        )
        (omega int_laws)
]

slices_growth :
    (bs : List OrdinaryBracket) (x y prev : ℤ)
    → x ≤ℤ y
    → IsTable prev bs
    → (slices x prev bs ≤ℤ slices y prev bs)
      × (slices y prev bs +ℤ over x prev *ℤ whole ≤ℤ slices x prev bs +ℤ over y prev *ℤ whole)
slices_growth [] x y prev h t = absurd t
slices_growth (b ∷ bs) x y prev h (r, t) = elim (Option-cases b.upper) [
  | inl e ↦
      let grown = slice_growth (over x prev) (over y prev) b.rate (over_mono x y prev h) r in
      rw e (omega (int_laws, grown.0), omega (int_laws, grown.1))
  | inr (u, e) ↦
      let (above, t') = rw e at t in
      let grown =
        slice_growth (max_ℤ (pos 0) (min_ℤ x u -ℤ prev)) (max_ℤ (pos 0) (min_ℤ y u -ℤ prev)) b.rate
          (over_mono (min_ℤ x u) (min_ℤ y u) prev (up_to_mono x y (some u) h)) r in
      let rest = slices_growth bs x y u h t' in
      let split_x =
        ap (λ (a : ℤ). a *ℤ whole) (over_split x prev u (omega arith)) ∙ +ℤ-*ℤ _ _ whole in
      let split_y =
        ap (λ (a : ℤ). a *ℤ whole) (over_split y prev u (omega arith)) ∙ +ℤ-*ℤ _ _ whole in
      rw (split_x, split_y, e)
        (omega (int_laws, grown.0, rest.0), omega (int_laws, grown.1, rest.1))
]

-- On a valid table, of two incomes the larger one pays at least as much tax, and at most the
-- difference of the incomes more, incomes below zero counted as zero.
progressive_tax-growth :
    (x y : ℤ) (bs : List OrdinaryBracket)
    → IsTable (pos 0) bs
    → x ≤ℤ y
    → (progressive_tax x bs ≤ℤ progressive_tax y bs)
      × (progressive_tax y bs +ℤ max_ℤ (pos 0) x *ℤ whole
          ≤ℤ progressive_tax x bs +ℤ max_ℤ (pos 0) y *ℤ whole)
progressive_tax-growth x y bs t h =
    let grown = slices_growth bs x y (pos 0) h t in
    let over_zero : (z : ℤ) → over z (pos 0) ≡ max_ℤ (pos 0) z =
      λ z. ap (max_ℤ (pos 0)) (omega int_laws) in
    rw
      (
        progressive_tax-eq-slices x bs t,
        progressive_tax-eq-slices y bs t,
        sym (over_zero x),
        sym (over_zero y),
      )
      grown

-- On a valid table the tax of a capital gain on top of a base of at least zero is at least zero and
-- at most the gain.
capital_gain_tax_bounds :
    (base gain : ℤ) (bs : List OrdinaryBracket)
    → IsTable (pos 0) bs
    → pos 0 ≤ℤ base
    → pos 0 ≤ℤ gain
    → (pos 0 ≤ℤ capital_gain_tax base gain bs) × (capital_gain_tax base gain bs ≤ℤ gain *ℤ whole)
unfolding capital_gain_tax
capital_gain_tax_bounds base gain bs t p q =
    let grown = progressive_tax-growth base (base +ℤ gain) bs t (omega int_laws) in
    let growth =
      rw
        (
          max_ℤ_right (pos 0) base p,
          max_ℤ_right (pos 0) (base +ℤ gain) (omega int_laws),
          +ℤ-*ℤ base gain whole,
        )
        at grown in
    elim (Bool-cases (leb_ℤ gain (pos 0))) [
      | inl none_gained ↦ rw none_gained (omega arith, *ℤ_nonneg gain whole q (omega arith))
      | inr gained ↦
          rw (gained, max_ℤ_left base (pos 0) p)
            (omega (int_laws, growth.0), omega (int_laws, growth.1))
    ]
