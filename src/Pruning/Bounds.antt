-- ===== src/Pruning/Bounds.antt =====
-- What it means that statistics describe the values of a column, and how a literal then stands to
-- such a value and to the bounds.
use lakeql.Base.{Ordering, ◌≡◌, ◌⊎◌, Bool, true, false, Option, none, some, arith}
use lakeql.Base.Int.{ℤ, scale_ℤ, compare_ℤ}
use lakeql.Base.Order.{flip, is_le, IsOrder, compare_text, compare_bool}
use lakeql.Base.Result.{ok}
use lakeql.Expr.{
  Text, finite, TimestampValue, Scalar, text, number, boolean, bigint, timestamp, null, CompareOp,
}
use lakeql.Scalars.{Host, units_per_one, timestamp_value_from_iso}
use lakeql.Evaluator.{compare_order, compare_scalars}
use lakeql.Pruning.Stats.{ColumnStats, compare_values}

-- The exact value of a finite number or a BigInt, in units of 2^-1074.
abbrev pub exact_of : Scalar → Option ℤ
exact_of (number (finite k)) = some k
exact_of (bigint n) = some (scale_ℤ units_per_one n)
exact_of v = none

-- The bounds are of the value's type, and the value lies between them in the order of that type. A
-- null is covered by a null count that is not zero.
pub data Within (s : ColumnStats) : Scalar → Type 0 where
  nulls : s.has_no_nulls ≡ false → Within s null
  texts :
      (a b c : Text)
      → s.min ≡ text a
      → s.max ≡ text b
      → is_le (compare_text a c) ≡ true
      → is_le (compare_text c b) ≡ true
      → Within s (text c)
  numbers :
      {v : Scalar} (a b c : ℤ)
      → exact_of s.min ≡ some a
      → exact_of s.max ≡ some b
      → exact_of v ≡ some c
      → is_le (compare_ℤ a c) ≡ true
      → is_le (compare_ℤ c b) ≡ true
      → Within s v
  booleans :
      (a b c : Bool)
      → s.min ≡ boolean a
      → s.max ≡ boolean b
      → is_le (compare_bool a c) ≡ true
      → is_le (compare_bool c b) ≡ true
      → Within s (boolean c)
  timestamps :
      (a b c : TimestampValue)
      → s.min ≡ timestamp a
      → s.max ≡ timestamp b
      → is_le (compare_ℤ a.epoch_nanoseconds c.epoch_nanoseconds) ≡ true
      → is_le (compare_ℤ c.epoch_nanoseconds b.epoch_nanoseconds) ≡ true
      → Within s (timestamp c)

module _ (host : Host) where
  -- Pruning and the evaluator order a literal and a bound alike: two texts are not both timestamps
  -- in ISO form, and no timestamp is held against a text bound.
  abbrev pub Agree : Scalar → Scalar → Type 0
  Agree (text s) (text t) =
      (timestamp_value_from_iso host s ≡ none) ⊎ (timestamp_value_from_iso host t ≡ none)
  Agree (timestamp x) (text t) = ⊥
  Agree a b = Unit

  -- How a literal `x` stands to a value `v` of the column and to the bounds.
  pub record Placed (s : ColumnStats) (v x : Scalar) : Type 0 where
    pub order : Ordering
    pub value_first :
        (op : CompareOp) → compare_scalars host op v x ≡ ok (some (compare_order op order))
    pub literal_first :
        (op : CompareOp) → compare_scalars host op x v ≡ ok (some (compare_order op (flip order)))
    pub min-flip : compare_values host x s.min ≡ flip (compare_values host s.min x)
    pub max-flip : compare_values host x s.max ≡ flip (compare_values host s.max x)
    pub from_min : is_le order ≡ true → is_le (compare_values host s.min x) ≡ true
    pub to_min : is_le (flip (compare_values host s.min x)) ≡ true → is_le (flip order) ≡ true
    pub from_max : is_le (flip order) ≡ true → is_le (flip (compare_values host s.max x)) ≡ true
    pub to_max : is_le (compare_values host s.max x) ≡ true → is_le order ≡ true

  module _ {A : Type 0} (cmp : A → A → Ordering) (o : IsOrder cmp) (a b c d : A) where
    pub Placed-by :
        (s : ColumnStats) (v x : Scalar)
        → is_le (cmp a c) ≡ true
        → is_le (cmp c b) ≡ true
        → ((op : CompareOp) → compare_scalars host op v x ≡ ok (some (compare_order op (cmp c d))))
        → ((op : CompareOp) → compare_scalars host op x v ≡ ok (some (compare_order op (cmp d c))))
        → compare_values host x s.min ≡ cmp d a
        → compare_values host s.min x ≡ cmp a d
        → compare_values host x s.max ≡ cmp d b
        → compare_values host s.max x ≡ cmp b d
        → Placed s v x
    Placed-by s v x lo hi fwd bwd xm mx xn nx = record {
      order = cmp c d;
      value_first = fwd;
      literal_first = λ op. rw (← o.cmp-flip c d) (bwd op);
      min-flip = ground (arith, o.cmp-flip a d);
      max-flip = ground (arith, o.cmp-flip b d);
      from_min = λ h. ground (arith, o.le_trans a c d lo);
      to_min =
          λ h. ground (arith, o.cmp-flip a d, o.cmp-flip c d, o.cmp-flip a c, o.le_trans d a c);
      from_max = λ h. ground (arith, o.cmp-flip b d, o.cmp-flip c d, o.le_trans d c b);
      to_max = λ h. ground (arith, o.le_trans c b d hi);
    }
