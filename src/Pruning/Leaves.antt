-- ===== src/Pruning/Leaves.antt =====
-- Pruning one comparison, one BETWEEN and one IN list, for a value of the column that the statistics
-- describe.
use lakeql.Base.{Ordering, ◌≡◌, refl, Bool, true, false, some, arith}
use lakeql.Base.Order.{flip, is_le}
use lakeql.Base.Result.{Result, ok, err, ErrorCode}
use lakeql.Expr.{Scalar, number, bigint, CompareOp}
use lakeql.Scalars.{Host}
use lakeql.Evaluator.{SqlBoolean, is_null, compare_order, compare_scalars}
use lakeql.Pruning.Stats.{ColumnStats, is_stats_value, compare_values, invert_compare_op}
use lakeql.Pruning.Bounds.{Within, Agree, Placed}
use lakeql.Pruning.Place.{place}
use lakeql.Pruning.RowGroups.{
  may_by_order, must_by_order, literal_may_match, literal_must_match, range_may_match,
  range_must_match,
}

pub compare_order-invert :
    (op : CompareOp) (o : Ordering)
    → compare_order (invert_compare_op op) o ≡ compare_order op (flip o)
unfolding compare_order invert_compare_op
compare_order-invert op o = ground arith

-- `a` stands for the minimum against the literal, `b` for the maximum, `o` for the value.
may_by_order_lem :
    (op : CompareOp) (o a b : Ordering)
    → (is_le o ≡ true → is_le a ≡ true)
    → (is_le (flip a) ≡ true → is_le (flip o) ≡ true)
    → (is_le (flip o) ≡ true → is_le (flip b) ≡ true)
    → (is_le b ≡ true → is_le o ≡ true)
    → compare_order op o ≡ true
    → may_by_order op (flip a) (flip b) a b ≡ true
unfolding compare_order may_by_order
may_by_order_lem op o a b p q r s h = ground arith

must_by_order_lem :
    (op : CompareOp) (o a b : Ordering)
    → (is_le o ≡ true → is_le a ≡ true)
    → (is_le (flip a) ≡ true → is_le (flip o) ≡ true)
    → (is_le (flip o) ≡ true → is_le (flip b) ≡ true)
    → (is_le b ≡ true → is_le o ≡ true)
    → must_by_order op (flip a) (flip b) a b ≡ true
    → compare_order op o ≡ true
unfolding compare_order must_by_order
must_by_order_lem op o a b p q r s h = ground arith

-- Where the statistics exclude nulls, a value of the column is none.
not_null_by :
    {s : ColumnStats} {v : Scalar} → Within s v → s.has_no_nulls ≡ true → is_null v ≡ false
not_null_by (Within.nulls e) h = absurd (cc)
not_null_by (Within.texts a b c p q r t) h = refl
not_null_by (Within.numbers {v = number x} a b c p q e r t) h = refl
not_null_by (Within.numbers {v = bigint x} a b c p q e r t) h = refl
not_null_by (Within.numbers a b c p q e r t) h = absurd (cc)
not_null_by (Within.booleans a b c p q r t) h = refl
not_null_by (Within.timestamps a b c p q r t) h = refl

module _ (host : Host) where
  pub not_null_left :
      (op : CompareOp) (v x : Scalar) {b : Bool}
      → compare_scalars host op v x ≡ ok (some b)
      → is_null v ≡ false
  unfolding compare_scalars
  not_null_left op v x h = ground arith

  pub not_null_right :
      (op : CompareOp) (v x : Scalar) {b : Bool}
      → compare_scalars host op v x ≡ ok (some b)
      → is_null x ≡ false
  unfolding compare_scalars
  not_null_right op v x h = ground arith

  never_one_way :
      (op : CompareOp) (x v : Scalar) {r : SqlBoolean} {e : ErrorCode}
      → compare_scalars host op x v ≡ ok r
      → compare_scalars host CompareOp.eq v x ≡ err e
      → ⊥
  unfolding compare_scalars
  never_one_way op x v h k = ground arith

  -- What can be compared can be compared the other way round.
  swapped_any :
      (op : CompareOp) (x v : Scalar) {r : SqlBoolean}
      → compare_scalars host op x v ≡ ok r
      → (r' : SqlBoolean) × (compare_scalars host CompareOp.eq v x ≡ ok r')
  swapped_any op x v h = outcome (compare_scalars host CompareOp.eq v x) refl
    where
      outcome :
          (t : Result SqlBoolean)
          → compare_scalars host CompareOp.eq v x ≡ t
          → (r' : SqlBoolean) × (compare_scalars host CompareOp.eq v x ≡ ok r')
      outcome (ok r') k = (r', k)
      outcome (err e) k = absurd (never_one_way op x v h k)

  no_nulls :
      (s : ColumnStats) (op : CompareOp) (x : Scalar)
      → literal_must_match host op x s ≡ true
      → s.has_no_nulls ≡ true
  unfolding literal_must_match
  no_nulls s op x m = ground arith

  module _ (s : ColumnStats) (v x : Scalar) (p : Placed host s v x) where
    pub placed_may :
        (op : CompareOp) → compare_order op p.order ≡ true → literal_may_match host op x s ≡ true
    unfolding literal_may_match
    placed_may op h =
        rw (p.min-flip, p.max-flip)
          (ground (
            arith,
            may_by_order_lem op p.order (compare_values host s.min x) (compare_values host s.max x)
                p.from_min p.to_min p.from_max p.to_max h,
          ))

    pub placed_must :
        (op : CompareOp) → literal_must_match host op x s ≡ true → compare_order op p.order ≡ true
    unfolding literal_must_match
    placed_must op h =
        must_by_order_lem op p.order (compare_values host s.min x) (compare_values host s.max x)
          p.from_min p.to_min p.from_max p.to_max (tests h)
      where
        tests :
            literal_must_match host op x s ≡ true
            → must_by_order op
                (flip (compare_values host s.min x))
                (flip (compare_values host s.max x))
                (compare_values host s.min x)
                (compare_values host s.max x)
              ≡ true
        tests k = rw (← p.min-flip, ← p.max-flip) (ground arith)

  pub literal_may_match_sound :
      (s : ColumnStats) (op : CompareOp) (v x : Scalar)
      → Within s v
      → is_stats_value x ≡ true
      → Agree host x s.min
      → Agree host x s.max
      → compare_scalars host op v x ≡ ok (some true)
      → literal_may_match host op x s ≡ true
  literal_may_match_sound s op v x w u p q h =
      let here : Placed host s v x =
        place host s op (some true) v x w (not_null_left op v x h) u h p q in
      placed_may s v x here op (cc (here.value_first op))

  -- The literal on the left, as in `5 < column`.
  pub flipped_may_match_sound :
      (s : ColumnStats) (op : CompareOp) (v x : Scalar)
      → Within s v
      → is_stats_value x ≡ true
      → Agree host x s.min
      → Agree host x s.max
      → compare_scalars host op x v ≡ ok (some true)
      → literal_may_match host (invert_compare_op op) x s ≡ true
  flipped_may_match_sound s op v x w u p q h =
      let (r, f) = swapped_any op x v h in
      let here : Placed host s v x =
        place host s CompareOp.eq r v x w (not_null_right op x v h) u f p q in
      placed_may s v x here (invert_compare_op op)
        (cc (here.literal_first op, compare_order-invert op here.order))

  pub literal_must_match_sound :
      (s : ColumnStats) (op : CompareOp) (v x : Scalar) {r : SqlBoolean}
      → Within s v
      → is_stats_value x ≡ true
      → Agree host x s.min
      → Agree host x s.max
      → literal_must_match host op x s ≡ true
      → compare_scalars host op v x ≡ ok r
      → r ≡ some true
  literal_must_match_sound s op v x {r} w u p q m h =
      let here : Placed host s v x =
        place host s op r v x w (not_null_by w (no_nulls s op x m)) u h p q in
      cc (here.value_first op, placed_must s v x here op m)

  pub flipped_must_match_sound :
      (s : ColumnStats) (op : CompareOp) (v x : Scalar) {r : SqlBoolean}
      → Within s v
      → is_stats_value x ≡ true
      → Agree host x s.min
      → Agree host x s.max
      → literal_must_match host (invert_compare_op op) x s ≡ true
      → compare_scalars host op x v ≡ ok r
      → r ≡ some true
  flipped_must_match_sound s op v x {r} w u p q m h =
      let n : is_null v ≡ false = not_null_by w (no_nulls s (invert_compare_op op) x m) in
      let (r', f) = swapped_any op x v h in
      let here : Placed host s v x = place host s CompareOp.eq r' v x w n u f p q in
      cc (
        here.literal_first op,
        compare_order-invert op here.order,
        placed_must s v x here (invert_compare_op op) m,
      )

  pub range_may_match_sound :
      (s : ColumnStats) (v low high : Scalar)
      → Within s v
      → (is_stats_value low ≡ true) × (is_stats_value high ≡ true)
      → Agree host low s.min × Agree host low s.max
      → Agree host high s.min × Agree host high s.max
      → compare_scalars host CompareOp.gte v low ≡ ok (some true)
      → compare_scalars host CompareOp.lte v high ≡ ok (some true)
      → range_may_match host low high s ≡ true
  unfolding range_may_match compare_order
  range_may_match_sound s v low high w u al ah h k =
      let n : is_null v ≡ false = not_null_left CompareOp.gte v low h in
      let l : Placed host s v low =
        place host s CompareOp.gte (some true) v low w n u.0 h al.0 al.1 in
      let g : Placed host s v high =
        place host s CompareOp.lte (some true) v high w n u.1 k ah.0 ah.1 in
      ground
        (arith, l.value_first CompareOp.gte, l.from_max, g.value_first CompareOp.lte, g.from_min)

  pub range_must_match_sound :
      (s : ColumnStats) (v low high : Scalar) {a b : SqlBoolean}
      → Within s v
      → (is_stats_value low ≡ true) × (is_stats_value high ≡ true)
      → Agree host low s.min × Agree host low s.max
      → Agree host high s.min × Agree host high s.max
      → range_must_match host low high s ≡ true
      → compare_scalars host CompareOp.gte v low ≡ ok a
      → compare_scalars host CompareOp.lte v high ≡ ok b
      → (a ≡ some true) × (b ≡ some true)
  unfolding range_must_match compare_order
  range_must_match_sound s v low high {a} {b} w u al ah m h k =
      let n : is_null v ≡ false = not_null_by w (ground arith) in
      let l : Placed host s v low = place host s CompareOp.gte a v low w n u.0 h al.0 al.1 in
      let g : Placed host s v high = place host s CompareOp.lte b v high w n u.1 k ah.0 ah.1 in
      ground (arith, l.value_first CompareOp.gte, l.to_min, g.value_first CompareOp.lte, g.to_max)
