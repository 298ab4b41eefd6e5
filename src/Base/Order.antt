-- ===== src/Base/Order.antt =====
-- Comparators. `IsOrder` is what a three-way comparison has to satisfy so that bounds on one value
-- carry over to another: it is a total preorder.
use Prim.Native.Nat.{ℕ, compare, Ordering}
use mathlib.Core.Bool.{Bool, true, false}
use mathlib.Core.List.{List, [], ◌∷◌}
use mathlib.Core.Path.{◌≡◌, refl}
use native.Mathlib.Omega.{arith}
use lakeql.Base.Int.{compare_ℤ}

abbrev pub flip : Ordering → Ordering
flip Ordering.lt = Ordering.gt
flip Ordering.eq = Ordering.eq
flip Ordering.gt = Ordering.lt

-- The tests `order < 0`, `order <= 0` and `order === 0` on the number that a comparator returns.
abbrev pub is_lt : Ordering → Bool
is_lt Ordering.lt = true
is_lt Ordering.eq = false
is_lt Ordering.gt = false

abbrev pub is_le : Ordering → Bool
is_le Ordering.lt = true
is_le Ordering.eq = true
is_le Ordering.gt = false

abbrev pub is_eq : Ordering → Bool
is_eq Ordering.lt = false
is_eq Ordering.eq = true
is_eq Ordering.gt = false

pub record IsOrder {A : Type 0} (cmp : A → A → Ordering) : Type 0 where
  pub cmp-flip : (a b : A) → cmp b a ≡ flip (cmp a b)
  pub le_trans :
      (a b c : A) → is_le (cmp a b) ≡ true → is_le (cmp b c) ≡ true → is_le (cmp a c) ≡ true

pub compare_ℤ-IsOrder : IsOrder compare_ℤ
compare_ℤ-IsOrder = record { cmp-flip = λ a b. ground arith; le_trans = λ a b c p q. ground arith }

-- JavaScript compares strings by their UTF-16 code units, of which a text is the list.
unfoldable pub compare_text : List ℕ → List ℕ → Ordering
compare_text [] [] = Ordering.eq
compare_text [] (d ∷ t) = Ordering.lt
compare_text (c ∷ s) [] = Ordering.gt
compare_text (c ∷ s) (d ∷ t) = elim (compare c d) [
  | Ordering.lt ↦ Ordering.lt
  | Ordering.eq ↦ compare_text s t
  | Ordering.gt ↦ Ordering.gt
]

compare_text-flip : (s t : List ℕ) → compare_text t s ≡ flip (compare_text s t)
unfolding compare_text
compare_text-flip [] [] = refl
compare_text-flip [] (d ∷ t) = refl
compare_text-flip (c ∷ s) [] = refl
compare_text-flip (c ∷ s) (d ∷ t) = ground (arith, compare_text-flip s t)

compare_text_trans :
    (s t u : List ℕ)
    → is_le (compare_text s t) ≡ true
    → is_le (compare_text t u) ≡ true
    → is_le (compare_text s u) ≡ true
unfolding compare_text
compare_text_trans [] [] [] p q = refl
compare_text_trans [] [] (e ∷ u) p q = refl
compare_text_trans [] (d ∷ t) [] p q = refl
compare_text_trans [] (d ∷ t) (e ∷ u) p q = refl
compare_text_trans (c ∷ s) [] u p q = absurd (cc)
compare_text_trans (c ∷ s) (d ∷ t) [] p q = absurd (cc)
compare_text_trans (c ∷ s) (d ∷ t) (e ∷ u) p q = ground (arith, compare_text_trans s t u)

pub compare_text-IsOrder : IsOrder compare_text
compare_text-IsOrder = record { cmp-flip = compare_text-flip; le_trans = compare_text_trans }

abbrev pub compare_bool : Bool → Bool → Ordering
compare_bool false true = Ordering.lt
compare_bool true false = Ordering.gt
compare_bool false false = Ordering.eq
compare_bool true true = Ordering.eq

pub compare_bool-IsOrder : IsOrder compare_bool
compare_bool-IsOrder = record {
  cmp-flip = λ a b. ground arith;
  le_trans = λ a b c p q. ground arith;
}

pub compare_text-eq : (s t : List ℕ) → is_eq (compare_text s t) ≡ true → s ≡ t
unfolding compare_text
compare_text-eq [] [] h = refl
compare_text-eq [] (d ∷ t) h = absurd (cc)
compare_text-eq (c ∷ s) [] h = absurd (cc)
compare_text-eq (c ∷ s) (d ∷ t) h = ground (arith, compare_text-eq s t)
