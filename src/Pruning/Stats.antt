-- ===== src/Pruning/Stats.antt =====
-- packages/parquet/src/row-group-pruning.ts: the statistics of a column chunk and how pruning
-- compares them with literals. The shape of a row group is that of the hyparquet package, as far as
-- the program reads it.
use lakeql.Base.{
  ℕ, zero, suc, Ordering, Bool, true, false, ◌&&◌, ◌||◌, List, [], ◌∷◌, ◌++◌, Option, none, some,
  if◌then◌else◌,
}
use lakeql.Base.Int.{ℤ}
use lakeql.Expr.{
  Text, TimestampValue, Scalar, text, number, boolean, bigint, bytes, timestamp, interval, null,
  CompareOp, Expr,
}
use lakeql.Scalars.{
  Host, js_order, timestamp_value_from_iso, compare_timestamp_values, is_finite, is_safe_integer,
}
use lakeql.Evaluator.{text_eq, is_timestamp}

pub record Statistics : Type 0 where
  pub min_value : Option Scalar
  pub max_value : Option Scalar
  pub min : Option Scalar
  pub max : Option Scalar
  pub null_count : Option ℕ

pub record ColumnMetadata : Type 0 where
  pub path_in_schema : List Text
  pub statistics : Option Statistics
  pub dictionary_page_offset : Option ℤ
  pub data_page_offset : Option ℤ
  pub total_compressed_size : Option ℤ

pub record RowGroup : Type 0 where
  pub columns : List (Option ColumnMetadata)
  pub num_rows : ℕ
  pub file_offset : Option ℤ
  pub total_compressed_size : Option ℤ

-- `path.join(".")`
unfoldable pub join_path : List Text → Text
join_path [] = []
join_path (part ∷ []) = part
join_path (part ∷ next ∷ path) = part ++ (b'.' ∷ join_path (next ∷ path))

-- `left ?? right`
unfoldable pub coalesce : Option Scalar → Option Scalar → Option Scalar
coalesce none b = b
coalesce (some null) b = b
coalesce (some v) b = some v

unfoldable pub is_stats_value : Scalar → Bool
is_stats_value (text s) = true
is_stats_value (number x) = is_finite x
is_stats_value (bigint n) = true
is_stats_value (boolean b) = true
is_stats_value (timestamp t) = true
is_stats_value (bytes b) = false
is_stats_value (interval i) = false
is_stats_value null = false

pub record ColumnStats : Type 0 where
  pub min : Scalar
  pub max : Scalar
  pub has_no_nulls : Bool

-- A null count that is missing is not zero.
abbrev pub is_zero_count : Option ℕ → Bool
is_zero_count none = false
is_zero_count (some zero) = true
is_zero_count (some (suc n)) = false

unfoldable pub stats_of : Option Scalar → Option Scalar → Option ℕ → Option ColumnStats
stats_of none max n = none
stats_of (some min) none n = none
stats_of (some min) (some max) n =
    if is_stats_value min && is_stats_value max
    then some (record { min = min; max = max; has_no_nulls = is_zero_count n })
    else none

unfoldable pub chunk_stats : Option Statistics → Option ColumnStats
unfolding stats_of coalesce is_stats_value
chunk_stats none = none
chunk_stats (some s) =
    stats_of (coalesce s.min_value s.min) (coalesce s.max_value s.max) s.null_count

unfoldable pub chunk_for : Option ColumnMetadata → Text → Option ColumnStats
unfolding chunk_stats join_path
chunk_for none column = none
chunk_for (some m) column =
    if text_eq (join_path m.path_in_schema) column then chunk_stats m.statistics else none

-- The first chunk of that path that has usable bounds.
unfoldable pub columns_stats : List (Option ColumnMetadata) → Text → Option ColumnStats
unfolding chunk_for
columns_stats [] column = none
columns_stats (chunk ∷ chunks) column = elim (chunk_for chunk column) [
  | none ↦ columns_stats chunks column
  | some s ↦ some s
]

unfoldable pub column_stats : RowGroup → Text → Option ColumnStats
unfolding columns_stats
column_stats group column = columns_stats group.columns column

unfoldable pub invert_compare_op : CompareOp → CompareOp
invert_compare_op CompareOp.eq = CompareOp.eq
invert_compare_op CompareOp.ne = CompareOp.ne
invert_compare_op CompareOp.lt = CompareOp.gt
invert_compare_op CompareOp.lte = CompareOp.gte
invert_compare_op CompareOp.gt = CompareOp.lt
invert_compare_op CompareOp.gte = CompareOp.lte

pub record ColumnLiteral : Type 0 where
  pub column : Text
  pub op : CompareOp
  pub value : Scalar

unfoldable pub usable : Text → CompareOp → Scalar → Option ColumnLiteral
usable name op v =
    if is_stats_value v then some (record { column = name; op = op; value = v }) else none

unfoldable pub column_literal_compare : Expr → CompareOp → Expr → Option ColumnLiteral
unfolding usable invert_compare_op
column_literal_compare (Expr.column name) op (Expr.literal v) = usable name op v
column_literal_compare (Expr.literal v) op (Expr.column name) = usable name (invert_compare_op op) v
column_literal_compare l op r = none

-- `isLosslessNumberBigIntPair`, for operands of different types.
unfoldable pub lossless_number_bigint : Scalar → Scalar → Bool
lossless_number_bigint (number x) (bigint n) = is_safe_integer x
lossless_number_bigint (bigint n) (number x) = is_safe_integer x
lossless_number_bigint a b = false

-- `typeof left === typeof right`, among the values of statistics.
unfoldable pub stats_same_type : Scalar → Scalar → Bool
stats_same_type (text s) (text t) = true
stats_same_type (number x) (number y) = true
stats_same_type (bigint m) (bigint n) = true
stats_same_type (boolean a) (boolean b) = true
stats_same_type a b = false

abbrev is_infinite_number : Scalar → Bool
is_infinite_number (number x) = if is_finite x then false else true
is_infinite_number v = false

module _ (host : Host) where
  unfoldable pub timestamp_stats_value : Scalar → Option TimestampValue
  timestamp_stats_value (timestamp t) = some t
  timestamp_stats_value (text s) = timestamp_value_from_iso host s
  timestamp_stats_value v = none

  abbrev is_timestamp_like : Scalar → Bool
  is_timestamp_like v = elim (timestamp_stats_value v) [ none ↦ false | some t ↦ true ]

  unfoldable pub same_comparable_type : Scalar → Scalar → Bool
  unfolding timestamp_stats_value stats_same_type lossless_number_bigint
  same_comparable_type left right =
      if is_timestamp left || is_timestamp right
      then is_timestamp_like left && is_timestamp_like right
      else if is_infinite_number left || is_infinite_number right
      then false
      else stats_same_type left right || lossless_number_bigint left right

  unfoldable pub timestamps_or : Option TimestampValue → Option TimestampValue → Ordering → Ordering
  timestamps_or (some a) (some b) o = compare_timestamp_values a b
  timestamps_or (some a) none o = o
  timestamps_or none b o = o

  unfoldable pub compare_values : Scalar → Scalar → Ordering
  unfolding timestamps_or timestamp_stats_value
  compare_values left right =
      timestamps_or (timestamp_stats_value left) (timestamp_stats_value right)
        (js_order host left right)
