-- ===== src/Sorting.antt =====
-- packages/core/src/scalar-order.ts and packages/core/src/query-sort.ts: the order of rows under
-- ORDER BY, and the bounded list of rows that a query with a limit keeps. Merging sorted runs through
-- a heap is left out.
pub mod Antisymmetry
pub mod TopK
pub mod Normalized
use lakeql.Base.{
  ℕ, zero, suc, ◌+◌, Ordering, Bool, true, false, ◌&&◌, ◌||◌, not, List, [], ◌∷◌, ◌++◌, Option,
  none, some, ltb, if◌then◌else◌, length,
}
use lakeql.Base.Order.{is_lt, is_eq, flip}
use lakeql.Base.Result.{Result, ok, err, type_error, unknown_column, ◌>>=◌, ◌>>◌, guard}
use lakeql.Expr.{
  Text, Number, Scalar, text, number, boolean, bigint, bytes, timestamp, interval, null, Cell,
  scalar, undefined, other, Row,
}
use lakeql.Scalars.{Host, js_order, compare_timestamp_values, is_finite}
use lakeql.Evaluator.{find_cell}

pub data Direction : Type 0 where
  asc desc : Direction

pub data NullsOrder : Type 0 where
  first last : NullsOrder

pub record ScalarOrderTerm : Type 0 where
  pub column : Text
  pub direction : Option Direction
  pub nulls : Option NullsOrder

abbrev pub direction_of : ScalarOrderTerm → Direction
direction_of term = elim term.direction [ none ↦ Direction.asc | some d ↦ d ]

abbrev default_nulls : Direction → NullsOrder
default_nulls Direction.asc = NullsOrder.last
default_nulls Direction.desc = NullsOrder.first

abbrev pub nulls_of : ScalarOrderTerm → NullsOrder
nulls_of term = elim term.nulls [ none ↦ default_nulls (direction_of term) | some n ↦ n ]

unfoldable pub is_sortable_scalar : Cell → Bool
is_sortable_scalar (scalar (text s)) = true
is_sortable_scalar (scalar (number x)) = true
is_sortable_scalar (scalar (bigint n)) = true
is_sortable_scalar (scalar (boolean b)) = true
is_sortable_scalar (scalar (timestamp t)) = true
is_sortable_scalar (scalar (bytes b)) = false
is_sortable_scalar (scalar (interval i)) = false
is_sortable_scalar (scalar null) = false
is_sortable_scalar undefined = false
is_sortable_scalar other = false

abbrev pub is_null_cell : Cell → Bool
is_null_cell (scalar null) = true
is_null_cell undefined = true
is_null_cell c = false

abbrev pub is_infinite_cell : Cell → Bool
is_infinite_cell (scalar (number x)) = if is_finite x then false else true
is_infinite_cell c = false

abbrev pub null_order : NullsOrder → Ordering
null_order NullsOrder.first = Ordering.lt
null_order NullsOrder.last = Ordering.gt

abbrev pub directed : Direction → Ordering → Ordering
directed Direction.asc o = o
directed Direction.desc o = flip o

module _ (host : Host) where
  -- The end of `compareNonNullScalars`: timestamps with timestamps, and values of one type.
  unfoldable pub compare_same_type : Cell → Cell → Result Ordering
  compare_same_type (scalar (timestamp a)) (scalar (timestamp b)) =
      ok (compare_timestamp_values a b)
  compare_same_type (scalar (text a)) (scalar (text b)) = ok (js_order host (text a) (text b))
  compare_same_type (scalar (number a)) (scalar (number b)) =
      ok (js_order host (number a) (number b))
  compare_same_type (scalar (bigint a)) (scalar (bigint b)) =
      ok (js_order host (bigint a) (bigint b))
  compare_same_type (scalar (boolean a)) (scalar (boolean b)) =
      ok (js_order host (boolean a) (boolean b))
  compare_same_type a b = err type_error

  unfoldable pub compare_non_null_scalars : Cell → Cell → Result Ordering
  unfolding is_sortable_scalar compare_same_type
  compare_non_null_scalars left right =
      if is_sortable_scalar left && is_sortable_scalar right
      then if is_infinite_cell left || is_infinite_cell right
        then err type_error
        else compare_same_type left right
      else err type_error

  unfoldable pub compare_ordered_scalars : Cell → Cell → ScalarOrderTerm → Result Ordering
  unfolding compare_non_null_scalars
  compare_ordered_scalars left right term =
      if is_null_cell left
      then ok (if is_null_cell right then Ordering.eq else null_order (nulls_of term))
      else if is_null_cell right
      then ok (flip (null_order (nulls_of term)))
      else (compare_non_null_scalars left right >>= λ o. ok (directed (direction_of term) o))

  unfoldable pub compare_aggregate_scalars : Scalar → Scalar → Result Ordering
  unfolding compare_non_null_scalars
  compare_aggregate_scalars left right =
      if is_null_cell (scalar left) || is_null_cell (scalar right)
      then err type_error
      else compare_non_null_scalars (scalar left) (scalar right)

  unfoldable pub numeric_aggregate_value : Scalar → Result Number
  numeric_aggregate_value (number x) = if is_finite x then ok x else err type_error
  numeric_aggregate_value v = err type_error

  unfoldable pub value_for_column : Row → Text → Result Cell
  value_for_column row column = elim (find_cell row column) [
    | none ↦ err unknown_column
    | some c ↦ ok c
  ]

  unfoldable pub compare_rows : Row → Row → List ScalarOrderTerm → Result Ordering
  unfolding value_for_column compare_ordered_scalars
  compare_rows left right [] = ok Ordering.eq
  compare_rows left right (term ∷ terms) = do
    l ← value_for_column left term.column
    r ← value_for_column right term.column
    o ← compare_ordered_scalars l r term
    let rest = compare_rows left right terms
    if is_eq o then rest else ok o

  unfoldable pub validate_sort_row : Row → List ScalarOrderTerm → Result (Unit {0})
  unfolding value_for_column is_sortable_scalar
  validate_sort_row row [] = ok tt
  validate_sort_row row (term ∷ terms) = do
    value ← value_for_column row term.column
    guard (is_null_cell value || is_sortable_scalar value) type_error
    validate_sort_row row terms

  module _ (order_by : List ScalarOrderTerm) where
    -- The index of the worst row: the rows still to see, the index of the first of them, and the
    -- worst so far.
    unfoldable pub worst_loop : List Row → ℕ → ℕ → Row → Result (ℕ × Row)
    unfolding compare_rows
    worst_loop [] index worst_index worst = ok (worst_index, worst)
    worst_loop (candidate ∷ rows) index worst_index worst = do
      o ← compare_rows candidate worst order_by
      let later = worst_loop rows (index + 1) index candidate
      let same = worst_loop rows (index + 1) worst_index worst
      if is_lt (flip o) then later else same

    unfoldable pub replace_at : ℕ → Row → List Row → List Row
    replace_at i row [] = []
    replace_at zero row (r ∷ rows) = row ∷ rows
    replace_at (suc i) row (r ∷ rows) = r ∷ replace_at i row rows

    -- The comparison with the worst row, of a list that is full.
    unfoldable pub replace_worst : List Row → Row → Result (List Row)
    unfolding worst_loop replace_at
    replace_worst [] row = ok []
    replace_worst (r ∷ rows) row = do
      (index, worst) ← worst_loop rows 1 0 r
      o ← compare_rows row worst order_by
      ok (if is_lt o then replace_at index row (r ∷ rows) else r ∷ rows)

    unfoldable pub add_ordered_match : List Row → Row → Option ℕ → Result (List Row)
    unfolding replace_worst
    add_ordered_match matched row none = ok (matched ++ (row ∷ []))
    add_ordered_match matched row (some zero) = ok matched
    add_ordered_match matched row (some (suc k)) =
        if ltb (length matched) (suc k)
        then ok (matched ++ (row ∷ []))
        else replace_worst matched row
