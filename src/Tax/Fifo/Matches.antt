-- ===== src/Tax/Fifo/Matches.antt =====
-- What one fill adds to the reports of two periods, in the first-in first-out matching of src/tax.rs.
use mlai_trade.Common.{
  ◌<◌, append_nil, sym, ℕ, zero, suc, ◌≤◌, min, ◌≡◌, refl, inl, inr, List, [], ◌∷◌, ◌++◌, arith,
  ltb, Bool-cases, Bool, not, ◌&&◌, ◌||◌, if◌then◌else◌, keep,
}
use mlai_trade.Tax.Positions.{FillActivity, OpenLot, ClosedPosition, Period, dust, in_period}
use mlai_trade.Tax.Fifo.{Report, Matching, push_match, match_lot, fifo_turn, fifo_loop, closed}

-- `p` lies within `q`, and treats paper accounts alike.
pub record IsWithin (p q : Period) : Type 0 where
  pub starts : q.start ≤ p.start
  pub ends : p.end ≤ q.end
  pub paper : p.include_paper ≡ q.include_paper

abbrev pub closed_in : Period → ClosedPosition → Bool
closed_in p c = in_period p c.exit_date

keep-append :
    (p : Period) (xs ys : List ClosedPosition)
    → keep (closed_in p) (xs ++ ys) ≡ keep (closed_in p) xs ++ keep (closed_in p) ys
keep-append p [] ys = refl
keep-append p (x ∷ xs) ys = elim (Bool-cases (closed_in p x)) [
  | inl e ↦ rw (e, keep-append p xs ys) refl
  | inr e ↦ rw (e, keep-append p xs ys) refl
]

-- The report of `p` is the part of the report of `q`.
abbrev pub IsPart : Period → Report → Report → Type 0
IsPart p a b = a.positions ≡ keep (closed_in p) b.positions

-- What a match adds to the report.
abbrev added : Period → FillActivity → OpenLot → ℕ → List ClosedPosition
added p fill lot qty =
    if in_period p fill.date && (not fill.paper_account || p.include_paper)
    then closed fill lot qty ∷ []
    else []

push_match-added :
    (p : Period) (fill : FillActivity) (lot : OpenLot) (qty : ℕ) (a : Report)
    → (push_match p fill lot qty a).positions ≡ a.positions ++ added p fill lot qty
unfolding push_match
push_match-added p fill lot qty a = ground (arith, sym (append_nil a.positions))

keep-added :
    (p q : Period) (fill : FillActivity) (lot : OpenLot) (qty : ℕ)
    → IsWithin p q
    → keep (closed_in p) (added q fill lot qty) ≡ added p fill lot qty
keep-added p q fill lot qty w = ground (arith, w.starts, w.ends, w.paper)

push_match-IsPart :
    (p q : Period) (fill : FillActivity) (lot : OpenLot) (qty : ℕ) (a b : Report)
    → IsWithin p q
    → IsPart p a b
    → IsPart p (push_match p fill lot qty a) (push_match q fill lot qty b)
push_match-IsPart p q fill lot qty a b w h =
    rw
      (
        push_match-added p fill lot qty a,
        push_match-added q fill lot qty b,
        keep-append p b.positions (added q fill lot qty),
        keep-added p q fill lot qty w,
        h,
      )
      refl

-- The two runs have the same quantities and lots.
pub record IsTwin (p : Period) (a b : Matching) : Type 0 where
  pub same_remaining : a.remaining ≡ b.remaining
  pub same_lots : a.account_lots ≡ b.account_lots
  pub part : IsPart p a.report b.report

pub loop_IsTwin :
    (p q : Period) (fill : FillActivity) (fuel : ℕ) (lots : List OpenLot) (remaining : ℕ)
    (a b : Report)
    → IsWithin p q
    → IsPart p a b
    → IsTwin p
        (fifo_loop p fill fuel (record { remaining = remaining; account_lots = lots; report = a }))
        (fifo_loop q fill fuel (record { remaining = remaining; account_lots = lots; report = b }))
unfolding fifo_loop fifo_turn match_lot
loop_IsTwin p q fill zero lots remaining a b w h = record {
  same_remaining = refl;
  same_lots = refl;
  part = h;
}
loop_IsTwin p q fill (suc fuel) [] remaining a b w h = elim (Bool-cases (ltb dust remaining)) [
  | inl more ↦ rw more (loop_IsTwin p q fill fuel [] remaining a b w h)
  | inr done ↦ rw done (record { same_remaining = refl; same_lots = refl; part = h })
]
loop_IsTwin p q fill (suc fuel) (lot ∷ lots) remaining a b w h =
    elim (Bool-cases (ltb dust remaining)) [
      | inl more ↦ rw more (
          loop_IsTwin p q fill fuel _ _ _ _ w
            (push_match-IsPart p q fill lot (min remaining lot.qty) a b w h))
      | inr done ↦ rw done (record { same_remaining = refl; same_lots = refl; part = h })
    ]

-- A fill behind the end of the period adds nothing to the part.
late_push :
    (p q : Period) (fill : FillActivity) (lot : OpenLot) (qty : ℕ) (a b : Report)
    → p.end < fill.date
    → IsPart p a b
    → IsPart p a (push_match q fill lot qty b)
late_push p q fill lot qty a b late h =
    let none_kept : keep (closed_in p) (added q fill lot qty) ≡ [] = ground arith in
    rw
      (
        push_match-added q fill lot qty b,
        keep-append p b.positions (added q fill lot qty),
        none_kept,
        append_nil (keep (closed_in p) b.positions),
      )
      h

pub late_loop :
    (p q : Period) (fill : FillActivity) (fuel : ℕ) (lots : List OpenLot) (remaining : ℕ)
    (a b : Report)
    → p.end < fill.date
    → IsPart p a b
    → IsPart p a
        (fifo_loop q fill fuel
          (record { remaining = remaining; account_lots = lots; report = b })).report
unfolding fifo_loop fifo_turn match_lot
late_loop p q fill zero lots remaining a b late h = h
late_loop p q fill (suc fuel) [] remaining a b late h = elim (Bool-cases (ltb dust remaining)) [
  | inl more ↦ rw more (late_loop p q fill fuel [] remaining a b late h)
  | inr done ↦ rw done h
]
late_loop p q fill (suc fuel) (lot ∷ lots) remaining a b late h =
    elim (Bool-cases (ltb dust remaining)) [
      | inl more ↦ rw more (
          late_loop p q fill fuel _ _ a _ late
            (late_push p q fill lot (min remaining lot.qty) a b late h))
      | inr done ↦ rw done h
    ]
