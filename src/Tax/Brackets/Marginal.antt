-- ===== src/Tax/Brackets/Marginal.antt =====
-- The marginal rate of src/tax.rs against the progressive tax.
use mlai_trade.Common.{◌≡◌, refl, List, [], ◌∷◌, arith, inl, inr, Option-cases, Bool-cases}
use mlai_trade.Common.Int.{
  ℤ, pos, ◌≤ℤ◌, ◌+ℤ◌, ◌-ℤ◌, ◌*ℤ◌, leb_ℤ, max_ℤ_left, max_ℤ_right, min_ℤ_left, min_ℤ_right, +ℤ-*ℤ,
  +ℤ_parts, int_laws,
}
use mlai_trade.Tax.Brackets.{OrdinaryBracket, rate_within, marginal_rate, progressive_tax}
use mlai_trade.Tax.Brackets.Valid.{IsTable}
use mlai_trade.Tax.Brackets.Slices.{slices, slices_above, progressive_tax-eq-slices}

one-*ℤ : (r : ℤ) → pos 1 *ℤ r ≡ r
unfolding ◌*ℤ◌
one-*ℤ r = ground arith

-- One more unit in a bracket that is open at `a`.
unit_more : (a c r : ℤ) → c ≡ a +ℤ pos 1 → c *ℤ r ≡ a *ℤ r +ℤ r
unit_more a c r e = rw (e, +ℤ-*ℤ a (pos 1) r, one-*ℤ r) refl

slices_unit :
    (bs : List OrdinaryBracket) (x prev last : ℤ)
    → prev ≤ℤ x
    → IsTable prev bs
    → slices (x +ℤ pos 1) prev bs ≡ slices x prev bs +ℤ rate_within (x +ℤ pos 1) last bs
unfolding rate_within
slices_unit [] x prev last h t = absurd t
slices_unit (b ∷ bs) x prev last h (r, t) = elim (Option-cases b.upper) [
  | inl e ↦
      rw
        (
          e,
          rate_within,
          max_ℤ_right (pos 0) (x -ℤ prev) (omega int_laws),
          max_ℤ_right (pos 0) (x +ℤ pos 1 -ℤ prev) (omega int_laws),
          unit_more (x -ℤ prev) (x +ℤ pos 1 -ℤ prev) b.rate (omega int_laws),
        )
        (omega int_laws)
  | inr (u, e) ↦
      let (above, t') = rw e at t in
      elim (Bool-cases (leb_ℤ (x +ℤ pos 1) u)) [
        | inl within ↦
            let k : x +ℤ pos 1 ≤ℤ u = ground arith in
            rw
              (
                e,
                rate_within,
                within,
                min_ℤ_left (x +ℤ pos 1) u k,
                min_ℤ_left x u (omega int_laws),
                max_ℤ_right (pos 0) (x -ℤ prev) (omega int_laws),
                max_ℤ_right (pos 0) (x +ℤ pos 1 -ℤ prev) (omega int_laws),
                unit_more (x -ℤ prev) (x +ℤ pos 1 -ℤ prev) b.rate (omega int_laws),
                slices_above bs (x +ℤ pos 1) u k t',
                slices_above bs x u (omega int_laws) t',
              )
              (omega int_laws)
        | inr beyond ↦
            let k : u ≤ℤ x = ground (arith, +ℤ_parts x (pos 1)) in
            rw
              (
                e,
                rate_within,
                beyond,
                min_ℤ_right (x +ℤ pos 1) u (omega int_laws),
                min_ℤ_right x u k,
                slices_unit bs x u b.rate k t',
              )
              (omega int_laws)
      ]
]

-- On a valid table and from an income of zero up, the tax of one unit more is larger by the marginal
-- rate at that larger income.
marginal_rate-progressive_tax :
    (x : ℤ) (bs : List OrdinaryBracket)
    → IsTable (pos 0) bs
    → pos 0 ≤ℤ x
    → progressive_tax (x +ℤ pos 1) bs ≡ progressive_tax x bs +ℤ marginal_rate (x +ℤ pos 1) bs
unfolding marginal_rate
marginal_rate-progressive_tax x bs t h =
    rw
      (
        progressive_tax-eq-slices (x +ℤ pos 1) bs t,
        progressive_tax-eq-slices x bs t,
        max_ℤ_left (x +ℤ pos 1) (pos 0) (omega int_laws),
      )
      (slices_unit bs x (pos 0) (pos 0) h t)
