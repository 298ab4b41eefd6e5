-- ===== src/Window/Aggregates.antt =====
-- packages/core/src/window-segment-tree.ts: `segmentTreeAggregateValues`, the leaves of the tree and the
-- values that nodes stand for.
use lakeql.Base.{
  ℕ, ◌+◌, ◌-◌, Bool, true, false, ◌||◌, not, List, [], ◌∷◌, Option, none, some, ◌==◌, if◌then◌else◌,
}
use lakeql.Base.Int.{pos}
use lakeql.Base.Order.{is_lt}
use lakeql.Base.Result.{Result, ok, err, sql_unsupported, ◌>>=◌}
use lakeql.Expr.{Number, nan, Scalar, number, null, ArithmeticOp}
use lakeql.Evaluator.{evaluate, is_null}
use lakeql.Scalars.{Host, exact, compare_number}
use lakeql.Sorting.{numeric_aggregate_value}
use lakeql.Window.{
  AggregateOp, WindowFn, WindowExpr, WindowFrame, Exclude, WindowRow, WindowHost, filter_row,
}
use lakeql.Window.RangeFrames.{frame_span}
use lakeql.Window.Tree.{
  SegmentNode, SegmentTree, empty_node, zero_number, is_segment_aggregate, build_tree, query,
}

-- The operation of a window expression that the tree computes, if it does.
abbrev pub tree_aggregate : WindowFn → Option AggregateOp
tree_aggregate (WindowFn.aggregate op) = if is_segment_aggregate op then some op else none
tree_aggregate fn = none

abbrev pub excludes_none : Option WindowFrame → Bool
excludes_none none = true
excludes_none (some frame) = elim frame.exclude [
  | Exclude.no_others ↦ true
  | Exclude.current_row ↦ false
  | Exclude.group ↦ false
  | Exclude.ties ↦ false
]

abbrev pub one : Number
one = exact (pos 1)

module _ (host : Host) where
  unfoldable pub aggregate_input_value : WindowExpr → WindowRow → Result Scalar
  unfolding evaluate
  aggregate_input_value expr row = elim expr.args [
    | [] ↦ ok (number one)
    | ◌∷◌ arg args ↦ evaluate host row.row arg
  ]

  abbrev counted_node : SegmentNode
  counted_node = record empty_node { count = 1 }

  -- The node of a value that is not null.
  unfoldable pub value_node : AggregateOp → Scalar → Result SegmentNode
  unfolding numeric_aggregate_value
  value_node AggregateOp.count value = ok counted_node
  value_node AggregateOp.min value =
      ok (record counted_node { least = some value; greatest = some value })
  value_node AggregateOp.max value =
      ok (record counted_node { least = some value; greatest = some value })
  value_node op value = do
    x ← numeric_aggregate_value host value
    ok (record counted_node { sum = x; mean = x })

  unfoldable pub leaf_node : WindowRow → WindowExpr → AggregateOp → Result SegmentNode
  unfolding filter_row aggregate_input_value value_node
  leaf_node row expr op = do
    passes ← filter_row host expr row.row
    let node = do
      value ← aggregate_input_value expr row
      if is_null value then ok empty_node else value_node op value
    if passes then node else ok empty_node

  unfoldable pub leaf_nodes : List WindowRow → WindowExpr → AggregateOp → Result (List SegmentNode)
  unfolding leaf_node
  leaf_nodes [] expr op = ok []
  leaf_nodes (row ∷ rows) expr op = do
    node ← leaf_node row expr op
    nodes ← leaf_nodes rows expr op
    ok (node ∷ nodes)

  -- `Math.max(0, node.m2)`
  abbrev not_below_zero : Number → Number
  not_below_zero nan = nan
  not_below_zero x = if is_lt (compare_number x zero_number) then zero_number else x

  abbrev or_null : Option Scalar → Scalar
  or_null none = null
  or_null (some v) = v

  unfoldable pub variance_over : WindowHost → SegmentNode → ℕ → (Number → Number) → Scalar
  unfolding compare_number
  variance_over window node freedom finish =
      if freedom == 0
      then null
      else number (
          finish
            (host.arithmetic_op ArithmeticOp.div (not_below_zero node.m2) (exact (pos freedom))))

  -- The variance of a sample divides by one less: at a count of one or none it is null.
  unfoldable pub aggregate_value : WindowHost → AggregateOp → SegmentNode → Result Scalar
  unfolding variance_over
  aggregate_value window AggregateOp.count node = ok (number (exact (pos node.count)))
  aggregate_value window AggregateOp.sum node =
      ok (if node.count == 0 then null else number node.sum)
  aggregate_value window AggregateOp.avg node = ok (
      if node.count == 0
      then null
      else number (host.arithmetic_op ArithmeticOp.div node.sum (exact (pos node.count))))
  aggregate_value window AggregateOp.min node = ok (or_null node.least)
  aggregate_value window AggregateOp.max node = ok (or_null node.greatest)
  aggregate_value window AggregateOp.var_samp node =
      ok (variance_over window node (node.count - 1) (λ x. x))
  aggregate_value window AggregateOp.var_pop node =
      ok (variance_over window node node.count (λ x. x))
  aggregate_value window AggregateOp.stddev_samp node =
      ok (variance_over window node (node.count - 1) window.square_root)
  aggregate_value window AggregateOp.stddev_pop node =
      ok (variance_over window node node.count window.square_root)
  aggregate_value window op node = err sql_unsupported

  -- The values of the rows from an index on, `rows` of which are left.
  unfoldable pub frame_values :
      WindowHost
      → SegmentTree
      → List WindowRow
      → WindowExpr
      → AggregateOp
      → List WindowRow
      → ℕ
      → Result (List Scalar)
  unfolding frame_span query aggregate_value
  frame_values window tree partition expr op [] index = ok []
  frame_values window tree partition expr op (row ∷ rows) index = do
    span ← frame_span host window partition index expr
    node ← query host tree span
    value ← aggregate_value window op node
    values ← frame_values window tree partition expr op rows (index + 1)
    ok (value ∷ values)

  abbrev pub tree_values :
      WindowHost → List WindowRow → WindowExpr → Option AggregateOp → Result (Option (List Scalar))
  tree_values window partition expr none = ok none
  tree_values window partition expr (some op) = do
    leaves ← leaf_nodes partition expr op
    tree ← build_tree host leaves
    values ← frame_values window tree partition expr op partition 0
    ok (some values)

  -- `none` is undefined: the expression is none that the tree computes.
  unfoldable pub segment_tree_aggregate_values :
      WindowHost → List WindowRow → WindowExpr → Result (Option (List Scalar))
  unfolding leaf_nodes build_tree frame_values
  segment_tree_aggregate_values window partition expr =
      if expr.distinct || not (excludes_none expr.over.frame)
      then ok none
      else tree_values window partition expr (tree_aggregate expr.fn)
