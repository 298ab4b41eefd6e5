-- ===== src/Base/Slices.antt =====
-- Parts of lists by native numbers, under the library's names.
use Prim.Native.Nat.{ℕ, zero, suc, ◌+◌, ◌-◌, ◌≤◌}
use mathlib.Core.List.{List, [], ◌∷◌}
use mathlib.Core.Path.{◌≡◌, refl, ap, ◌∙◌}
use native.Mathlib.Omega.{arith}
use lakeql.Base.Lists.{length, get_elem?}

unfoldable pub drop : {A : Type 0} → ℕ → List A → List A
drop zero xs = xs
drop (suc n) [] = []
drop (suc n) (x ∷ xs) = drop n xs

unfoldable pub take : {A : Type 0} → ℕ → List A → List A
take zero xs = []
take (suc n) [] = []
take (suc n) (x ∷ xs) = x ∷ take n xs

-- The elements from one index up to another.
abbrev pub slice : {A : Type 0} → List A → ℕ → ℕ → List A
slice xs start end = take (end - start) (drop start xs)

suc_add : (k i : ℕ) → suc (k + i) ≡ suc k + i
suc_add k i = omega arith

module _ {A : Type 0} where
  pub drop-get_elem? :
      (k : ℕ) (xs : List A) (i : ℕ) → get_elem? (drop k xs) i ≡ get_elem? xs (k + i)
  unfolding drop
  drop-get_elem? zero xs i = ap (get_elem? xs) (omega arith)
  drop-get_elem? (suc k) [] i = refl
  drop-get_elem? (suc k) (x ∷ xs) i = drop-get_elem? k xs i ∙ ap (get_elem? (x ∷ xs)) (suc_add k i)

  pub drop-length : (k : ℕ) (xs : List A) → length (drop k xs) ≡ length xs - k
  unfolding drop
  drop-length zero xs = omega arith
  drop-length (suc k) [] = omega arith
  drop-length (suc k) (x ∷ xs) = omega (arith, drop-length k xs)

  drop-nil : (n : ℕ) → drop {A = A} n [] ≡ []
  unfolding drop
  drop-nil zero = refl
  drop-nil (suc n) = refl

  take-nil : (n : ℕ) → take {A = A} n [] ≡ []
  unfolding take
  take-nil zero = refl
  take-nil (suc n) = refl

  drop-drop : (m n : ℕ) (xs : List A) → drop n (drop m xs) ≡ drop (m + n) xs
  unfolding drop
  drop-drop zero n xs = rw (zero_plus n) refl
    where
      zero_plus : (k : ℕ) → 0 + k ≡ k
      zero_plus k = omega arith
  drop-drop (suc m) n [] = rw (drop-nil n) (rw (drop-nil (suc m + n)) refl)
  drop-drop (suc m) n (x ∷ xs) = drop-drop m n xs ∙ ap (λ (k : ℕ). drop k (x ∷ xs)) (suc_add m n)

  drop-take : (n m : ℕ) (xs : List A) → drop n (take m xs) ≡ take (m - n) (drop n xs)
  unfolding drop take
  drop-take zero m xs = rw (minus_zero m) refl
    where
      minus_zero : (k : ℕ) → k - 0 ≡ k
      minus_zero k = omega arith
  drop-take (suc n) zero xs = rw (none n) refl
    where
      none : (k : ℕ) → 0 - suc k ≡ 0
      none k = omega arith
  drop-take (suc n) (suc m) [] = rw (take-nil (suc m - suc n)) refl
  drop-take (suc n) (suc m) (x ∷ xs) = rw (less m n) (drop-take n m xs)
    where
      less : (j k : ℕ) → suc j - suc k ≡ j - k
      less j k = omega arith

  take-take : (n m : ℕ) (xs : List A) → n ≤ m → take n (take m xs) ≡ take n xs
  unfolding take
  take-take zero m xs h = refl
  take-take (suc n) zero xs h = absurd (omega (arith, h))
  take-take (suc n) (suc m) [] h = refl
  take-take (suc n) (suc m) (x ∷ xs) h = ap (λ ys. x ∷ ys) (take-take n m xs (omega (arith, h)))

  pub length-take : (n : ℕ) (xs : List A) → n ≤ length xs → length (take n xs) ≡ n
  unfolding take
  length-take zero xs h = refl
  length-take (suc n) [] h = absurd (omega (arith, h))
  length-take (suc n) (x ∷ xs) h = omega (arith, length-take n xs (omega (arith, h)))

  -- A part of a part.
  pub slice-slice :
      (xs : List A) (start end from to : ℕ)
      → start ≤ from
      → to ≤ end
      → slice (slice xs start end) (from - start) (to - start) ≡ slice xs from to
  slice-slice xs start end from to h k =
      rw (drop-take (from - start) (end - start) (drop start xs)) (
        rw (drop-drop start (from - start) xs) (
          rw (back start from h) (
            rw (sizes start from to h) (
              take-take (to - from) (end - start - (from - start)) (drop from xs)
                (omega (arith, h, k))))))
    where
      back : (i j : ℕ) → i ≤ j → i + (j - i) ≡ j
      back i j h = omega (arith, h)

      sizes : (i j l : ℕ) → i ≤ j → l - i - (j - i) ≡ l - j
      sizes i j l h = omega (arith, h)
