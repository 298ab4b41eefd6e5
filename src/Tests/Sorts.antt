-- ===== src/Tests/Sorts.antt =====
-- The order of two rows, and a list of two rows at most.
use lakeql.Base.{ℕ, ◌+◌, ◌≡◌, ◌≤◌, refl, min, List, [], ◌∷◌, none, some, length, All, arith}
use lakeql.Base.Int.{ℤ}
use lakeql.Base.Order.{compare_text}
use lakeql.Base.Result.{ok}
use lakeql.Expr.{Text, bigint, scalar, Row}
use lakeql.Evaluator.{find_cell}
use lakeql.Scalars.{js_order}
use lakeql.Sorting.{
  ScalarOrderTerm, Direction, compare_rows, value_for_column, compare_ordered_scalars,
  compare_non_null_scalars, is_sortable_scalar, compare_same_type, worst_loop, replace_at,
  replace_worst, add_ordered_match,
}
use lakeql.Sorting.Antisymmetry.{turned, compare_rows-turned}
use lakeql.Sorting.TopK.{add_ordered_match-keeps}
use lakeql.Tests.Scans.{test_host}

abbrev age_column : Text
age_column = b'a' ∷ []

abbrev of_age : ℕ → Row
of_age n = (age_column, scalar (bigint (ℤ.pos n))) ∷ []

abbrev by_age : List ScalarOrderTerm
by_age = record { column = age_column; direction = some Direction.desc; nulls = none } ∷ []

-- Rows of at most one column.
abbrev IsNarrow : Row → Type 0
IsNarrow row = length row ≤ 1

compare_rows-turned_example :
    compare_rows test_host (of_age 5) (of_age 3) by_age
    ≡ turned (compare_rows test_host (of_age 3) (of_age 5) by_age)
compare_rows-turned_example = compare_rows-turned test_host (of_age 3) (of_age 5) by_age

narrow-kept :
    add_ordered_match test_host by_age (of_age 3 ∷ of_age 9 ∷ []) (of_age 5) (some 2)
    ≡ ok (of_age 5 ∷ of_age 9 ∷ [])
unfolding add_ordered_match replace_worst worst_loop replace_at compare_rows value_for_column
    find_cell compare_ordered_scalars compare_non_null_scalars is_sortable_scalar compare_same_type
    js_order compare_text
narrow-kept = refl

add_ordered_match-keeps_example :
    (length (of_age 5 ∷ of_age 9 ∷ []) ≡ min 2 (length (of_age 3 ∷ of_age 9 ∷ []) + 1))
    × All IsNarrow (of_age 5 ∷ of_age 9 ∷ [])
add_ordered_match-keeps_example =
    add_ordered_match-keeps test_host by_age IsNarrow (of_age 3 ∷ of_age 9 ∷ [])
      (of_age 5 ∷ of_age 9 ∷ []) (of_age 5) 2 (omega arith) (omega arith, (omega arith, tt))
      (omega arith) narrow-kept
