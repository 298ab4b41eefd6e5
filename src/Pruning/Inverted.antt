-- ===== src/Pruning/Inverted.antt =====
-- A literal on the left: the comparison with its sides exchanged, as `invertCompareOp` has it.
use lakeql.Base.{Ordering, ◌≡◌, refl, ap, Option, none, some, arith}
use lakeql.Base.Int.{compare_ℤ}
use lakeql.Base.Order.{
  flip, compare_text, compare_bool, compare_text-IsOrder, compare_bool-IsOrder, compare_ℤ-IsOrder,
}
use lakeql.Base.Result.{ok}
use lakeql.Expr.{
  Number, nan, neg_infinity, pos_infinity, finite, TimestampValue, Scalar, text, number, boolean,
  bigint, bytes, timestamp, null, CompareOp,
}
use lakeql.Scalars.{Host, compare_number, js_order, exact, compare_timestamp_values}
use lakeql.Evaluator.{compare_order, compare_scalars, timestamp_eval_value, compare_timestamps}
use lakeql.Pruning.Stats.{invert_compare_op}

compare_order-invert :
    (op : CompareOp) (o : Ordering)
    → compare_order op o ≡ compare_order (invert_compare_op op) (flip o)
unfolding compare_order invert_compare_op
compare_order-invert op Ordering.lt = ground arith
compare_order-invert op Ordering.eq = ground arith
compare_order-invert op Ordering.gt = ground arith

pub compare_number-flip : (x y : Number) → compare_number y x ≡ flip (compare_number x y)
unfolding compare_number
compare_number-flip nan nan = refl
compare_number-flip nan neg_infinity = refl
compare_number-flip nan pos_infinity = refl
compare_number-flip nan (finite b) = refl
compare_number-flip neg_infinity nan = refl
compare_number-flip neg_infinity neg_infinity = refl
compare_number-flip neg_infinity pos_infinity = refl
compare_number-flip neg_infinity (finite b) = refl
compare_number-flip pos_infinity nan = refl
compare_number-flip pos_infinity neg_infinity = refl
compare_number-flip pos_infinity pos_infinity = refl
compare_number-flip pos_infinity (finite b) = refl
compare_number-flip (finite a) nan = refl
compare_number-flip (finite a) neg_infinity = refl
compare_number-flip (finite a) pos_infinity = refl
compare_number-flip (finite a) (finite b) = compare_ℤ-IsOrder.cmp-flip a b

module _ (host : Host) where
  ordered :
      (op : CompareOp) (o p : Ordering)
      → p ≡ flip o
      → ok (some (compare_order op o)) ≡ ok (some (compare_order (invert_compare_op op) p))
  ordered op o p e = rw e (ap (λ b. ok (some b)) (compare_order-invert op o))

  timestamps-invert :
      (op : CompareOp) (a b : Option TimestampValue)
      → compare_timestamps host op a b ≡ compare_timestamps host (invert_compare_op op) b a
  unfolding compare_timestamps
  timestamps-invert op none none = refl
  timestamps-invert op none (some b) = refl
  timestamps-invert op (some a) none = refl
  timestamps-invert op (some a) (some b) =
      ordered op (compare_timestamp_values a b) (compare_timestamp_values b a)
        (compare_ℤ-IsOrder.cmp-flip a.epoch_nanoseconds b.epoch_nanoseconds)

  -- A comparison gives the same result, or the same error, with its sides exchanged and its operator
  -- inverted, on any two scalars: NaN, nulls and values of different types included.
  pub compare_scalars-invert :
      (op : CompareOp) (a b : Scalar)
      → compare_scalars host op a b ≡ compare_scalars host (invert_compare_op op) b a
  unfolding compare_scalars js_order timestamp_eval_value
  compare_scalars-invert op null b = ground arith
  compare_scalars-invert op a null = ground arith
  compare_scalars-invert op (bytes x) b = ground arith
  compare_scalars-invert op a (bytes y) = ground arith
  compare_scalars-invert op (timestamp x) b =
      timestamps-invert op (some x) (timestamp_eval_value host b)
  compare_scalars-invert op a (timestamp y) =
      timestamps-invert op (timestamp_eval_value host a) (some y)
  compare_scalars-invert op (text s) (text t) =
      ordered op (compare_text s t) (compare_text t s) (compare_text-IsOrder.cmp-flip s t)
  compare_scalars-invert op (number x) (number y) =
      ordered op (compare_number x y) (compare_number y x) (compare_number-flip x y)
  compare_scalars-invert op (number x) (bigint n) =
      ordered op (compare_number x (exact n)) (compare_number (exact n) x)
        (compare_number-flip x (exact n))
  compare_scalars-invert op (bigint m) (number y) =
      ordered op (compare_number (exact m) y) (compare_number y (exact m))
        (compare_number-flip (exact m) y)
  compare_scalars-invert op (bigint m) (bigint n) =
      ordered op (compare_ℤ m n) (compare_ℤ n m) (compare_ℤ-IsOrder.cmp-flip m n)
  compare_scalars-invert op (boolean x) (boolean y) =
      ordered op (compare_bool x y) (compare_bool y x) (compare_bool-IsOrder.cmp-flip x y)
  compare_scalars-invert op a b = ground arith
