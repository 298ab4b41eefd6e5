-- ===== src/Sorting/Antisymmetry.antt =====
-- Exchanging two rows turns their order around.
use lakeql.Base.{
  Ordering, ◌≡◌, refl, List, [], ◌∷◌, Option, none, some, arith, if◌then◌else◌, Bool-cases, inl,
  inr,
}
use lakeql.Base.Order.{flip, is_eq, compare_text-IsOrder, compare_bool-IsOrder, compare_ℤ-IsOrder}
use lakeql.Base.Result.{Result, ok, err, unknown_column, ◌>>=◌}
use lakeql.Evaluator.{find_cell}
use lakeql.Expr.{text, number, boolean, bigint, timestamp, Cell, scalar, Row}
use lakeql.Scalars.{Host, js_order}
use lakeql.Pruning.Inverted.{compare_number-flip}
use lakeql.Sorting.{
  ScalarOrderTerm, Direction, direction_of, nulls_of, null_order, directed, is_null_cell,
  compare_same_type, compare_non_null_scalars, compare_ordered_scalars, value_for_column,
  compare_rows,
}

abbrev pub turned : Result Ordering → Result Ordering
turned r = r >>= λ o. ok (flip o)

module _ (host : Host) where
  same_type-turned : (a b : Cell) → compare_same_type host b a ≡ turned (compare_same_type host a b)
  unfolding compare_same_type js_order
  same_type-turned (scalar (timestamp a)) (scalar (timestamp b)) =
      rw (compare_ℤ-IsOrder.cmp-flip a.epoch_nanoseconds b.epoch_nanoseconds)
  same_type-turned (scalar (text a)) (scalar (text b)) = rw (compare_text-IsOrder.cmp-flip a b)
  same_type-turned (scalar (number a)) (scalar (number b)) = rw (compare_number-flip a b)
  same_type-turned (scalar (bigint a)) (scalar (bigint b)) = rw (compare_ℤ-IsOrder.cmp-flip a b)
  same_type-turned (scalar (boolean a)) (scalar (boolean b)) =
      rw (compare_bool-IsOrder.cmp-flip a b)
  same_type-turned a b = ground arith

  non_null-turned :
      (a b : Cell) → compare_non_null_scalars host b a ≡ turned (compare_non_null_scalars host a b)
  unfolding compare_non_null_scalars
  non_null-turned a b = ground (arith, same_type-turned a b)

  directed-turned :
      (d : Direction) (r q : Result Ordering)
      → q ≡ turned r
      → (q >>= λ o. ok (directed d o)) ≡ turned (r >>= λ o. ok (directed d o))
  directed-turned Direction.asc (err e) q h = rw h
  directed-turned Direction.asc (ok o) q h = rw h
  directed-turned Direction.desc (err e) q h = rw h
  directed-turned Direction.desc (ok o) q h = rw h

  ordered_scalars-turned :
      (a b : Cell) (term : ScalarOrderTerm)
      → compare_ordered_scalars host b a term ≡ turned (compare_ordered_scalars host a b term)
  unfolding compare_ordered_scalars
  ordered_scalars-turned a b term = elim (Bool-cases (is_null_cell a)) [
    | inl x ↦ elim (Bool-cases (is_null_cell b)) [ inl y ↦ rw (x, y) | inr y ↦ rw (x, y) ]
    | inr x ↦ elim (Bool-cases (is_null_cell b)) [
      | inl y ↦ rw (x, y) (double (null_order (nulls_of term)))
      | inr y ↦
          rw (x, y)
            (directed-turned (direction_of term) (compare_non_null_scalars host a b)
              (compare_non_null_scalars host b a) (non_null-turned a b))
    ]
  ]
    where
      double : (o : Ordering) → ok o ≡ ok (flip (flip o))
      double Ordering.lt = refl
      double Ordering.eq = refl
      double Ordering.gt = refl

  -- One term of the loop, with what follows it.
  step_turned :
      (o p rest back : Result Ordering)
      → p ≡ turned o
      → back ≡ turned rest
      → (p >>= λ x. if is_eq x then back else ok x)
        ≡ turned (o >>= λ x. if is_eq x then rest else ok x)
  step_turned (err e) p rest back h k = rw h
  step_turned (ok Ordering.lt) p rest back h k = rw h
  step_turned (ok Ordering.eq) p rest back h k = rw (h, k)
  step_turned (ok Ordering.gt) p rest back h k = rw h

  -- With the rows exchanged, the order is turned around, or the comparison fails with the same kind of
  -- error: for any rows, and any terms with their directions and places of nulls.
  pub compare_rows-turned :
      (left right : Row) (terms : List ScalarOrderTerm)
      → compare_rows host right left terms ≡ turned (compare_rows host left right terms)
  unfolding compare_rows value_for_column
  compare_rows-turned left right [] = refl
  compare_rows-turned left right (term ∷ terms) =
      through (find_cell left term.column) (find_cell right term.column)
        (compare_rows-turned left right terms)
    where
      through :
          (a b : Option Cell)
          → compare_rows host right left terms ≡ turned (compare_rows host left right terms)
          → (elim b as (λ _. Result Cell) [ none ↦ err unknown_column | some c ↦ ok c ] >>= λ l.
              elim a as (λ _. Result Cell) [ none ↦ err unknown_column | some c ↦ ok c ] >>= λ r.
              compare_ordered_scalars host l r term >>= λ o.
              if is_eq o then compare_rows host right left terms else ok o)
            ≡ turned (
                elim a as (λ _. Result Cell) [ none ↦ err unknown_column | some c ↦ ok c ] >>= λ l.
                elim b as (λ _. Result Cell) [ none ↦ err unknown_column | some c ↦ ok c ] >>= λ r.
                compare_ordered_scalars host l r term >>= λ o.
                if is_eq o then compare_rows host left right terms else ok o)
      through none none rest = refl
      through none (some r) rest = refl
      through (some l) none rest = refl
      through (some l) (some r) rest =
          step_turned (compare_ordered_scalars host l r term)
            (compare_ordered_scalars host r l term) (compare_rows host left right terms)
            (compare_rows host right left terms) (ordered_scalars-turned l r term) rest
