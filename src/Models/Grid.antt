-- ===== src/Models/Grid.antt =====
-- The weight grid of src/ml.rs: every choice of weights occurs in it, and only once.
use mlai_trade.Common.{
  ℕ, zero, suc, ◌+◌, ◌-◌, ◌≤◌, ◌≡◌, refl, ap, ◌∙◌, inl, inr, Bool, true, false, ◌&&◌, some, List,
  [], ◌∷◌, ◌++◌, arith, if◌then◌else◌, leb, ◌==◌, Bool-cases, length,
}
use mlai_trade.Models.{for_values, grid_rec, generate_weight_grid}

abbrev same_weights : List ℕ → List ℕ → Bool
same_weights [] [] = true
same_weights [] (y ∷ ys) = false
same_weights (x ∷ xs) [] = false
same_weights (x ∷ xs) (y ∷ ys) = (x == y) && same_weights xs ys

abbrev pub occurrences : List ℕ → List (List ℕ) → ℕ
occurrences weights [] = 0
occurrences weights (entry ∷ grid) =
    (if same_weights entry weights then 1 else 0) + occurrences weights grid

abbrev pub sum : List ℕ → ℕ
sum [] = 0
sum (x ∷ xs) = x + sum xs

occurrences-append :
    (weights : List ℕ) (grid : List (List ℕ)) (entry : List ℕ)
    → occurrences weights (grid ++ (entry ∷ []))
      ≡ occurrences weights grid + (if same_weights entry weights then 1 else 0)
occurrences-append weights [] entry = omega arith
occurrences-append weights (first ∷ grid) entry =
    omega (arith, occurrences-append weights grid entry)

-- 1 for weights whose last one, behind `left` others, brings the sum to `remaining`.
abbrev fits : ℕ → ℕ → List ℕ → ℕ
fits left remaining [] = 0
fits zero remaining (x ∷ []) = if remaining == x then 1 else 0
fits zero remaining (x ∷ y ∷ weights) = 0
fits (suc left) remaining (x ∷ weights) =
    let rest = fits left (remaining - x) weights in if leb x remaining then rest else 0

-- The same behind the prefix `current`, and for a next weight of at least `value`.
abbrev solves : ℕ → ℕ → List ℕ → List ℕ → ℕ
solves left remaining [] weights = fits left remaining weights
solves left remaining (c ∷ current) [] = 0
solves left remaining (c ∷ current) (x ∷ weights) =
    let rest = solves left remaining current weights in if c == x then rest else 0

abbrev solves_above : ℕ → ℕ → ℕ → List ℕ → List ℕ → ℕ
solves_above left remaining value [] [] = 0
solves_above left remaining value [] (x ∷ weights) =
    let rest = fits left (remaining - x) weights in
    if leb value x && leb x remaining then rest else 0
solves_above left remaining value (c ∷ current) [] = 0
solves_above left remaining value (c ∷ current) (x ∷ weights) =
    let rest = solves_above left remaining value current weights in if c == x then rest else 0

solves_last :
    (remaining : ℕ) (current weights : List ℕ)
    → (if same_weights (current ++ (remaining ∷ [])) weights then 1 else 0)
      ≡ solves zero remaining current weights
solves_last remaining [] [] = refl
solves_last remaining [] (x ∷ []) = ground arith
solves_last remaining [] (x ∷ y ∷ weights) = ground arith
solves_last remaining (c ∷ current) [] = refl
solves_last remaining (c ∷ current) (x ∷ weights) =
    ground (arith, solves_last remaining current weights)

solves_above-step :
    (left remaining value : ℕ) (current weights : List ℕ)
    → value ≤ remaining
    → solves_above left remaining value current weights
      ≡ solves left (remaining - value) (current ++ (value ∷ [])) weights
        + solves_above left remaining (suc value) current weights
solves_above-step left remaining value [] [] h = refl
solves_above-step left remaining value [] (x ∷ weights) h = elim (Bool-cases (value == x)) [
  | inl same ↦ let e : value ≡ x = ground arith in rw e (ground arith)
  | inr other ↦ rw other (ground (arith, other))
]
solves_above-step left remaining value (c ∷ current) [] h = refl
solves_above-step left remaining value (c ∷ current) (x ∷ weights) h =
    ground (arith, solves_above-step left remaining value current weights h)

solves_above-end :
    (left remaining : ℕ) (current weights : List ℕ)
    → solves_above left remaining (suc remaining) current weights ≡ 0
solves_above-end left remaining [] [] = refl
solves_above-end left remaining [] (x ∷ weights) = ground arith
solves_above-end left remaining (c ∷ current) [] = refl
solves_above-end left remaining (c ∷ current) (x ∷ weights) =
    ground (arith, solves_above-end left remaining current weights)

solves_above-zero :
    (left remaining : ℕ) (current weights : List ℕ)
    → solves_above left remaining 0 current weights ≡ solves (suc left) remaining current weights
solves_above-zero left remaining [] [] = refl
solves_above-zero left remaining [] (x ∷ weights) = ground arith
solves_above-zero left remaining (c ∷ current) [] = refl
solves_above-zero left remaining (c ∷ current) (x ∷ weights) =
    ground (arith, solves_above-zero left remaining current weights)

abbrev Counts : ℕ → List ℕ → Type 0
Counts left weights =
    (remaining : ℕ) (current : List ℕ) (out : List (List ℕ))
    → occurrences weights (grid_rec left remaining current out)
      ≡ occurrences weights out + solves left remaining current weights

for_values-Counts :
    (left remaining : ℕ) (current weights : List ℕ)
    → Counts left weights
    → (k value : ℕ) (out : List (List ℕ)) → value + k ≡ suc remaining
    → occurrences weights
        (for_values (λ v o. grid_rec left (remaining - v) (current ++ (v ∷ [])) o) k value out)
      ≡ occurrences weights out + solves_above left remaining value current weights
for_values-Counts left remaining current weights ih zero value out e =
    let e' : value ≡ suc remaining = omega arith in
    rw (e', solves_above-end left remaining current weights) (omega arith)
for_values-Counts left remaining current weights ih (suc k) value out e =
    let next = grid_rec left (remaining - value) (current ++ (value ∷ [])) out in
    let rest =
      for_values-Counts left remaining current weights ih k (suc value) next (omega arith) in
    let here = ih (remaining - value) (current ++ (value ∷ [])) out in
    omega (arith, rest, here, solves_above-step left remaining value current weights (omega arith))

grid_rec-Counts : (left : ℕ) (weights : List ℕ) → Counts left weights
unfolding grid_rec
grid_rec-Counts zero weights remaining current out =
    occurrences-append weights out (current ++ (remaining ∷ []))
    ∙ ap (λ (k : ℕ). occurrences weights out + k) (solves_last remaining current weights)
grid_rec-Counts (suc left) weights remaining current out =
    for_values-Counts left remaining current weights (grid_rec-Counts left weights) (suc remaining)
      0 out (omega arith)
    ∙ ap (λ (k : ℕ). occurrences weights out + k) (solves_above-zero left remaining current weights)

fits_lem :
    (left remaining : ℕ) (weights : List ℕ)
    → fits left remaining weights
      ≡ (if (length weights == suc left) && (sum weights == remaining) then 1 else 0)
fits_lem left remaining [] = ground arith
fits_lem zero remaining (x ∷ []) = ground arith
fits_lem zero remaining (x ∷ y ∷ weights) = ground arith
fits_lem (suc left) remaining (x ∷ weights) = elim (Bool-cases (leb x remaining)) [
  | inl fine ↦ rw (fine, fits_lem left (remaining - x) weights) (ground (arith, fine))
  | inr large ↦ rw large (ground (arith, large))
]

-- For one weight or more, the grid has every list of that many weights with the sum of the steps exactly
-- once, and no other list.
pub generate_weight_grid-occurrences :
    (n steps : ℕ)
    → (grid : List (List ℕ)) × (generate_weight_grid (suc n) steps ≡ some grid)
      × ((weights : List ℕ)
          → occurrences weights grid
            ≡ (if (length weights == suc n) && (sum weights == steps) then 1 else 0))
unfolding generate_weight_grid
generate_weight_grid-occurrences n steps = (
  grid_rec n steps [] [],
  refl,
  λ weights. omega (arith, grid_rec-Counts n weights steps [] [], fits_lem n steps weights),
)
