-- ===== src/Pruning/InList.antt =====
-- packages/parquet/src/row-group-pruning.ts: an IN list as sorted values by type. The program keeps
-- the result of `cachedSortedInValues` for each expression; the model computes it again.
use lakeql.Base.{Bool, true, false, List, [], ◌∷◌, Option, none, some, if◌then◌else◌, get_elem?}
use lakeql.Base.Order.{is_lt, is_le}
use lakeql.Base.Search.{lower_bound}
use lakeql.Expr.{Scalar, text, number, boolean, bigint, timestamp, Expr, Exprs}
use lakeql.Scalars.{Host, timestamp_value_from_iso}
use lakeql.Pruning.Stats.{
  ColumnStats, RowGroup, is_stats_value, compare_values, same_comparable_type, column_stats,
}

pub data ValueType : Type 0 where
  number_type timestamp_type string_type boolean_type object_type : ValueType

unfoldable pub same_value_type : ValueType → ValueType → Bool
same_value_type ValueType.number_type ValueType.number_type = true
same_value_type ValueType.timestamp_type ValueType.timestamp_type = true
same_value_type ValueType.string_type ValueType.string_type = true
same_value_type ValueType.boolean_type ValueType.boolean_type = true
same_value_type ValueType.object_type ValueType.object_type = true
same_value_type a b = false

-- The values of a list of literals, or `none` if one of them is no usable literal.
unfoldable pub literal_values : Exprs → Option (List Scalar)
unfolding is_stats_value
literal_values Exprs.nil = some []
literal_values (Exprs.cons (Expr.literal v) es) = elim (literal_values es) [
  | none ↦ none
  | some vs ↦ if is_stats_value v then some (v ∷ vs) else none
]
literal_values (Exprs.cons e es) = none

module _ (host : Host) where
  unfoldable pub stats_value_type : Scalar → ValueType
  stats_value_type (number x) = ValueType.number_type
  stats_value_type (bigint n) = ValueType.number_type
  stats_value_type (timestamp t) = ValueType.timestamp_type
  stats_value_type (text s) = elim (timestamp_value_from_iso host s) [
    | none ↦ ValueType.string_type
    | some t ↦ ValueType.timestamp_type
  ]
  stats_value_type (boolean b) = ValueType.boolean_type
  stats_value_type v = ValueType.object_type

  -- `byType.get(key)`, before it is sorted.
  unfoldable pub bucket : ValueType → List Scalar → List Scalar
  unfolding stats_value_type same_value_type
  bucket key [] = []
  bucket key (v ∷ vs) =
      if same_value_type (stats_value_type v) key then v ∷ bucket key vs else bucket key vs

  -- `values.sort(compareValues)`: the built-in sort is stable.
  unfoldable pub insert_value : Scalar → List Scalar → List Scalar
  insert_value v [] = v ∷ []
  insert_value v (w ∷ ws) =
      if is_le (compare_values host v w) then v ∷ w ∷ ws else w ∷ insert_value v ws

  unfoldable pub sort_values : List Scalar → List Scalar
  unfolding insert_value
  sort_values [] = []
  sort_values (v ∷ vs) = insert_value v (sort_values vs)

  -- `lowerBound(values, target)`
  unfoldable pub below_target : Scalar → Scalar → Bool
  below_target target v = is_lt (compare_values host v target)

  unfoldable pub at_most : Option Scalar → Scalar → Bool
  at_most none max = false
  at_most (some v) max = is_le (compare_values host v max)

  unfoldable pub candidate_may_match : List Scalar → ColumnStats → Bool
  unfolding at_most lower_bound below_target
  candidate_may_match [] stats = true
  candidate_may_match (v ∷ vs) stats =
      if same_comparable_type host stats.min stats.max
      then at_most (get_elem? (v ∷ vs) (lower_bound (below_target stats.min) (v ∷ vs))) stats.max
      else true

  unfoldable pub values_may_match : List Scalar → ColumnStats → Bool
  unfolding candidate_may_match bucket sort_values
  values_may_match values stats =
      candidate_may_match (sort_values (bucket (stats_value_type stats.min) values)) stats

  unfoldable pub in_may_match : RowGroup → Bool → Expr → Exprs → Bool
  unfolding values_may_match literal_values column_stats
  in_may_match group true target values = true
  in_may_match group false (Expr.column name) values = elim (column_stats group name) [
    | none ↦ true
    | some stats ↦ elim (literal_values values) [
      | none ↦ true
      | some vs ↦ values_may_match vs stats
    ]
  ]
  in_may_match group false target values = true
