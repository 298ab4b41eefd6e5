-- ===== src/Base/Search.antt =====
-- Binary search, as packages/parquet/src/row-group-pruning.ts and packages/lance/src/rowids.ts write
-- it (`lowerBound`): the number of leading elements that pass a test, in an array whose passing
-- elements stand before the others.
use lakeql.Base.Lists.{length, get_elem?}
use lakeql.Base.Tests.{if◌then◌else◌, ltb, Bool-cases}
use Prim.Native.Nat.{ℕ, zero, suc, ◌+◌, ◌-◌, ◌/◌, ◌≤◌, ◌<◌}
use mathlib.Core.Bool.{Bool, true, false}
use mathlib.Core.List.{List, [], ◌∷◌}
use mathlib.Core.Option.{none, some}
use mathlib.Core.Path.{◌≡◌, refl}
use mathlib.Core.Logic.{inl, inr}
use native.Mathlib.Omega.{arith}

module _ {A : Type 0} (below : A → Bool) where
  -- Whether the element at an index passes; an index out of range does not.
  unfoldable pub below_at : List A → ℕ → Bool
  below_at xs i = elim (get_elem? xs i) [ none ↦ false | some x ↦ below x ]

  -- `while (low < high)`; the fuel bounds the rounds, and `lower_bound` gives enough.
  unfoldable pub lower_bound_loop : ℕ → List A → ℕ → ℕ → ℕ
  lower_bound_loop zero xs low high = low
  lower_bound_loop (suc fuel) xs low high =
      let middle = low + (high - low) / 2 in
      let right = lower_bound_loop fuel xs (middle + 1) high in
      let left = lower_bound_loop fuel xs low middle in
      if ltb low high then (if below_at xs middle then right else left) else low

  unfoldable pub lower_bound : List A → ℕ
  unfolding lower_bound_loop below_at
  lower_bound xs = lower_bound_loop (length xs + 1) xs 0 (length xs)

  -- The specification: the length of the longest prefix whose elements pass.
  unfoldable pub prefix_length : List A → ℕ
  prefix_length [] = 0
  prefix_length (x ∷ xs) = if below x then suc (prefix_length xs) else 0

  -- No element passes behind one that does not.
  abbrev pub IsSplit : List A → Type 0
  IsSplit xs = (i j : ℕ) → i ≤ j → below_at xs j ≡ true → below_at xs i ≡ true

  below_at-lt-length : (xs : List A) (i : ℕ) → below_at xs i ≡ true → i < length xs
  unfolding below_at
  below_at-lt-length [] i h = absurd (cc)
  below_at-lt-length (x ∷ xs) zero h = omega arith
  below_at-lt-length (x ∷ xs) (suc i) h = omega (arith, below_at-lt-length xs i h)

  prefix_length_unique :
      (xs : List A) (r : ℕ)
      → ((i : ℕ) → i < r → below_at xs i ≡ true)
      → below_at xs r ≡ false
      → r ≡ prefix_length xs
  unfolding below_at prefix_length
  prefix_length_unique [] zero before at = refl
  prefix_length_unique [] (suc r) before at = absurd (false_ne_true (before 0 (omega arith)))
    where
      false_ne_true : false ≡ true → ⊥
      false_ne_true e = cc
  prefix_length_unique (x ∷ xs) zero before at = ground arith
  prefix_length_unique (x ∷ xs) (suc r) before at =
      let here : below x ≡ true = before 0 (omega arith) in
      let rest : r ≡ prefix_length xs =
        prefix_length_unique xs r (λ i h. before (suc i) (omega arith)) at in
      ground arith

  lower_bound_loop-eq-prefix_length :
      (xs : List A)
      → IsSplit xs
      → (fuel low high : ℕ) → high - low < fuel
      → low ≤ high
      → ((i : ℕ) → i < low → below_at xs i ≡ true)
      → ((i : ℕ) → high ≤ i → below_at xs i ≡ false)
      → lower_bound_loop fuel xs low high ≡ prefix_length xs
  unfolding lower_bound_loop
  lower_bound_loop-eq-prefix_length xs split zero low high f le lo hi = absurd (omega arith)
  lower_bound_loop-eq-prefix_length xs split (suc fuel) low high f le lo hi =
      elim (Bool-cases (ltb low high)) [
        | inr done ↦ rw done (prefix_length_unique xs low lo (hi low (ground arith)))
        | inl more ↦ rw more (elim (Bool-cases (below_at xs middle)) [
          | inl b ↦ rw b (
              lower_bound_loop-eq-prefix_length xs split fuel (middle + 1) high (ground arith)
                (ground arith) (λ i h. split i middle (omega arith) b) hi)
          | inr b ↦ rw b (
              lower_bound_loop-eq-prefix_length xs split fuel low middle (ground arith)
                (omega arith) lo (λ i h. not_after b i h))
        ])
      ]
    where
      middle : ℕ
      middle = low + (high - low) / 2

      not_after : below_at xs middle ≡ false → (i : ℕ) → middle ≤ i → below_at xs i ≡ false
      not_after b i h = elim (Bool-cases (below_at xs i)) [
        | inl t ↦ absurd (clash (split middle i h t))
        | inr e ↦ e
      ]
        where
          clash : below_at xs middle ≡ true → ⊥
          clash e = cc

  -- On a list whose elements that pass stand before the others, binary search returns the number of
  -- elements that pass at its front.
  pub lower_bound-eq-prefix_length : (xs : List A) → IsSplit xs → lower_bound xs ≡ prefix_length xs
  unfolding lower_bound
  lower_bound-eq-prefix_length xs split =
      lower_bound_loop-eq-prefix_length xs split (length xs + 1) 0 (length xs) (omega arith)
        (omega arith) (λ i h. absurd (omega arith)) out
    where
      out : (i : ℕ) → length xs ≤ i → below_at xs i ≡ false
      out i h = elim (Bool-cases (below_at xs i)) [
        | inl t ↦ absurd (omega (arith, below_at-lt-length xs i t))
        | inr e ↦ e
      ]
