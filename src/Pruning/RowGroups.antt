-- ===== src/Pruning/RowGroups.antt =====
-- packages/parquet/src/row-group-pruning.ts: `rowGroupMayMatch` and `rowGroupMustMatch`.
use lakeql.Base.{Ordering, Bool, true, false, ◌&&◌, ◌||◌, Option, none, some, if◌then◌else◌}
use lakeql.Base.Order.{is_lt, is_le, is_eq, flip}
use lakeql.Expr.{Scalar, boolean, CompareOp, LogicalOp, Expr, Exprs}
use lakeql.Scalars.{Host}
use lakeql.Pruning.Stats.{
  RowGroup, ColumnStats, is_stats_value, column_stats, column_literal_compare, compare_values,
  same_comparable_type,
}
use lakeql.Pruning.InList.{in_may_match}
use lakeql.Pruning.Spatial.{JsonHost, call_may_match}

-- The tests of `compareMayMatch`, on what `compareValues` returns for value and minimum, value and
-- maximum, minimum and value, maximum and value.
unfoldable pub may_by_order : CompareOp → Ordering → Ordering → Ordering → Ordering → Bool
may_by_order CompareOp.eq vmin vmax minv maxv = is_le (flip vmin) && is_le vmax
may_by_order CompareOp.ne vmin vmax minv maxv = if is_eq minv && is_eq maxv then false else true
may_by_order CompareOp.lt vmin vmax minv maxv = is_lt minv
may_by_order CompareOp.lte vmin vmax minv maxv = is_le minv
may_by_order CompareOp.gt vmin vmax minv maxv = is_lt (flip maxv)
may_by_order CompareOp.gte vmin vmax minv maxv = is_le (flip maxv)

-- The tests of `compareMustMatch`.
unfoldable pub must_by_order : CompareOp → Ordering → Ordering → Ordering → Ordering → Bool
must_by_order CompareOp.eq vmin vmax minv maxv = is_eq minv && is_eq maxv
must_by_order CompareOp.ne vmin vmax minv maxv = is_lt vmin || is_lt (flip vmax)
must_by_order CompareOp.lt vmin vmax minv maxv = is_lt maxv
must_by_order CompareOp.lte vmin vmax minv maxv = is_le maxv
must_by_order CompareOp.gt vmin vmax minv maxv = is_lt (flip minv)
must_by_order CompareOp.gte vmin vmax minv maxv = is_le (flip minv)

module _ (host : Host) where
  unfoldable pub literal_may_match : CompareOp → Scalar → ColumnStats → Bool
  literal_may_match op value s =
      if same_comparable_type host s.min value && same_comparable_type host s.max value
      then may_by_order op (compare_values host value s.min) (compare_values host value s.max)
          (compare_values host s.min value) (compare_values host s.max value)
      else true

  unfoldable pub literal_must_match : CompareOp → Scalar → ColumnStats → Bool
  literal_must_match op value s =
      if s.has_no_nulls
      then if same_comparable_type host s.min value && same_comparable_type host s.max value
        then must_by_order op (compare_values host value s.min) (compare_values host value s.max)
            (compare_values host s.min value) (compare_values host s.max value)
        else false
      else false

  unfoldable pub range_may_match : Scalar → Scalar → ColumnStats → Bool
  range_may_match low high s =
      if same_comparable_type host s.min low && same_comparable_type host s.max high
      then is_le (flip (compare_values host s.max low)) && is_le (compare_values host s.min high)
      else true

  unfoldable pub range_must_match : Scalar → Scalar → ColumnStats → Bool
  range_must_match low high s =
      if s.has_no_nulls
      then if same_comparable_type host s.min low && same_comparable_type host s.max high
        then is_le (flip (compare_values host s.min low)) && is_le (compare_values host s.max high)
        else false
      else false

  module _ (group : RowGroup) where
    unfoldable pub compare_may_match : CompareOp → Expr → Expr → Bool
    compare_may_match op left right = elim (column_literal_compare left op right) [
      | none ↦ true
      | some pair ↦ elim (column_stats group pair.column) [
        | none ↦ true
        | some s ↦ literal_may_match pair.op pair.value s
      ]
    ]

    unfoldable pub compare_must_match : CompareOp → Expr → Expr → Bool
    compare_must_match op left right = elim (column_literal_compare left op right) [
      | none ↦ false
      | some pair ↦ elim (column_stats group pair.column) [
        | none ↦ false
        | some s ↦ literal_must_match pair.op pair.value s
      ]
    ]

    unfoldable pub between_may_match : Expr → Expr → Expr → Bool
    between_may_match (Expr.column name) (Expr.literal low) (Expr.literal high) =
        if is_stats_value low && is_stats_value high
        then elim (column_stats group name) [ none ↦ true | some s ↦ range_may_match low high s ]
        else true
    between_may_match target low high = true

    unfoldable pub between_must_match : Expr → Expr → Expr → Bool
    between_must_match (Expr.column name) (Expr.literal low) (Expr.literal high) =
        if is_stats_value low && is_stats_value high
        then elim (column_stats group name) [ none ↦ false | some s ↦ range_must_match low high s ]
        else false
    between_must_match target low high = false

    unfoldable mutual
      unfolding compare_must_match between_must_match

      pub must_match : Expr → Bool
      must_match (Expr.literal (boolean b)) = b
      must_match (Expr.literal v) = false
      must_match (Expr.compare op l r) = compare_must_match op l r
      must_match (Expr.between t l h) = between_must_match t l h
      must_match (Expr.logical LogicalOp.and es) = must_match_every es
      must_match (Expr.logical LogicalOp.or es) = must_match_some es
      must_match e = false

      pub must_match_every : Exprs → Bool
      must_match_every Exprs.nil = true
      must_match_every (Exprs.cons e es) = must_match e && must_match_every es

      pub must_match_some : Exprs → Bool
      must_match_some Exprs.nil = false
      must_match_some (Exprs.cons e es) = must_match e || must_match_some es

    module _ (json : JsonHost) where
      unfoldable mutual
        unfolding compare_may_match between_may_match in_may_match

        pub may_match : Expr → Bool
        may_match (Expr.compare op l r) = compare_may_match op l r
        may_match (Expr.in_list negated target values) =
            in_may_match host group negated target values
        may_match (Expr.between t l h) = between_may_match t l h
        may_match (Expr.logical LogicalOp.and es) = may_match_every es
        may_match (Expr.logical LogicalOp.or es) = may_match_some es
        may_match (Expr.call fn args) = call_may_match host json group fn args
        may_match e = true

        pub may_match_every : Exprs → Bool
        may_match_every Exprs.nil = true
        may_match_every (Exprs.cons e es) = may_match e && may_match_every es

        pub may_match_some : Exprs → Bool
        may_match_some Exprs.nil = false
        may_match_some (Exprs.cons e es) = may_match e || may_match_some es

      unfoldable pub row_group_may_match : Option Expr → Bool
      row_group_may_match none = true
      row_group_may_match (some e) = may_match e

    unfoldable pub row_group_must_match : Option Expr → Bool
    row_group_must_match none = true
    row_group_must_match (some e) = must_match e
