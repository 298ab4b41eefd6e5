-- ===== src/Tests/Windows.antt =====
-- A window over three rows, of which the first two are peers.
use lakeql.Base.{ℕ, ◌≡◌, ◌<◌, ◌↔◌, refl, false, List, [], ◌∷◌, none, some, arith}
use lakeql.Base.Int.{ℤ, pos, ◌≤ℤ◌, ◌+ℤ◌}
use lakeql.Base.Result.{ok, err, type_error}
use lakeql.Base.Returns.{Ensures}
use lakeql.Expr.{Text, bigint, nan, number, scalar, Scalar}
use lakeql.Scalars.{exact}
use lakeql.Evaluator.{matches}
use lakeql.Window.{
  WindowFrameBound, BoundKind, WindowFrame, FrameMode, Exclude, AggregateOp, WindowFn, WindowExpr,
  WindowRow, WindowHost, filter_row,
}
use lakeql.Window.Frames.{
  FrameSpan, span, bound_index, row_at, rows_frame_span, peer_groups, clamp, normalize_span,
  effective_frame,
}
use lakeql.Window.RangeFrames.{frame_span}
use lakeql.Window.Spans.{IsAmong, frame_span-IsAmong}
use lakeql.Window.RowFrames.{Has, rows_frame_span-Has}
use lakeql.Window.Groups.{AreGroups, peer_groups-AreGroups}
use lakeql.Window.Tree.{
  SegmentNode, SegmentTree, empty_node, size_loop, fill_leaves, merge_order_value, merge_nodes,
  build_loop, build_tree, left_step, right_step, query_loop, query, is_segment_aggregate,
}
use lakeql.Window.Aggregates.{
  leaf_nodes, segment_tree_aggregate_values, tree_aggregate, leaf_node, aggregate_input_value,
  value_node, frame_values, aggregate_value,
}
use lakeql.Window.TreeNodes.{Merged}
use lakeql.Base.Slices.{slice}
use lakeql.Window.TreeAnswers.{total_count}
use lakeql.Window.TreeSucceeds.{AreComparable, Holds, query-build_tree}
use lakeql.Sorting.{
  compare_aggregate_scalars, compare_non_null_scalars, compare_same_type, is_sortable_scalar,
}
use lakeql.Window.FrameValues.{AreFrameValues, segment_tree_aggregate_values-AreFrameValues}
use lakeql.Tests.Scans.{test_host}

abbrev length_text : List Scalar → Text
length_text [] = []
length_text (bigint (pos n) ∷ vs) = n ∷ length_text vs
length_text (v ∷ vs) = 0 ∷ length_text vs

abbrev test_window : WindowHost
test_window = record {
  stable_key = length_text;
  apply_interval = λ t i forwards. err type_error;
  square_root = λ x. nan;
}

abbrev row_of : ℕ → ℕ → WindowRow
row_of index key = record {
  row = (b'k' ∷ [], scalar (bigint (pos key))) ∷ [];
  original_index = index;
  partition_key = [];
  order_key = bigint (pos key) ∷ [];
}

abbrev three_rows : List WindowRow
three_rows = row_of 0 5 ∷ row_of 1 5 ∷ row_of 2 8 ∷ []

abbrev bound : BoundKind → WindowFrameBound
bound k = record { kind = k; offset = none }

abbrev up_to_current : WindowFrame
up_to_current = record {
  mode = FrameMode.rows;
  start = bound BoundKind.unbounded_preceding;
  end = bound BoundKind.current_row;
  exclude = Exclude.no_others;
}

abbrev running_count : WindowExpr
running_count = record {
  fn = WindowFn.aggregate AggregateOp.count;
  args = [];
  over = record { partition_by = []; order_by = []; frame = some up_to_current };
  filter = none;
  ignore_nulls = false;
  distinct = false;
}

peer_groups-AreGroups_example :
    (groups : List FrameSpan) × (peer_groups test_window three_rows ≡ ok groups)
    × AreGroups test_window three_rows 0 groups
peer_groups-AreGroups_example = peer_groups-AreGroups test_window three_rows

frame_span-IsAmong_example :
    Ensures (IsAmong 3) (frame_span test_host test_window three_rows 1 running_count)
frame_span-IsAmong_example = frame_span-IsAmong test_host test_window three_rows 1 running_count

lowest_bound :
    bound_index test_host 3 1 up_to_current.start (row_at test_host three_rows 1) ≡ ok (pos 0)
unfolding bound_index
lowest_bound = refl

highest_bound :
    bound_index test_host 3 1 up_to_current.end (row_at test_host three_rows 1) ≡ ok (pos 1)
unfolding bound_index
highest_bound = refl

rows_frame_span-Has_example :
    (s : FrameSpan) × (rows_frame_span test_host three_rows 1 up_to_current ≡ ok s)
    × ((i : ℕ) → Has s i ↔ (i < 3) × (pos 0 ≤ℤ pos i) × (pos i ≤ℤ pos 1))
rows_frame_span-Has_example =
    rows_frame_span-Has test_host three_rows 1 up_to_current (pos 0) (pos 1) lowest_bound
      highest_bound

abbrev counted : SegmentNode
counted = record empty_node { count = 1 }

abbrev three_leaves : List SegmentNode
three_leaves = counted ∷ counted ∷ counted ∷ []

abbrev no_tree : SegmentTree
no_tree = record { size = 1; nodes = λ i. empty_node }

abbrev tree_of : List SegmentNode → SegmentTree
tree_of leaves = elim (build_tree test_host leaves) [ ok t ↦ t | err e ↦ no_tree ]

three_leaves-built : build_tree test_host three_leaves ≡ ok (tree_of three_leaves)
unfolding build_tree build_loop merge_nodes merge_order_value fill_leaves size_loop
three_leaves-built = refl

-- Leaves of the values 5, 2 and 9.
abbrev leaf_of : ℕ → SegmentNode
leaf_of n = record counted { least = some (bigint (pos n)); greatest = some (bigint (pos n)) }

abbrev valued_leaves : List SegmentNode
valued_leaves = leaf_of 5 ∷ leaf_of 2 ∷ leaf_of 9 ∷ []

abbrev IsBigint : Scalar → Type 0
IsBigint v = (n : ℤ) × (v ≡ bigint n)

IsBigint-comparable : AreComparable test_host IsBigint
unfolding compare_aggregate_scalars compare_non_null_scalars compare_same_type is_sortable_scalar
IsBigint-comparable a b (m, e) (n, f) = rw (e, f) (_, refl)

leaf_of-IsBigint : (n : ℕ) → Holds IsBigint (leaf_of n)
leaf_of-IsBigint n = ((pos n, refl), (pos n, refl))

query-build_tree_example :
    (tree : SegmentTree) × (node : SegmentNode) × (build_tree test_host valued_leaves ≡ ok tree)
    × (query test_host tree (span 1 3) ≡ ok node)
    × Merged test_host (slice valued_leaves 1 3) node
    × (node.count ≡ total_count (slice valued_leaves 1 3))
query-build_tree_example =
    query-build_tree test_host IsBigint IsBigint-comparable valued_leaves (span 1 3)
      (leaf_of-IsBigint 5, (leaf_of-IsBigint 2, (leaf_of-IsBigint 9, tt))) (omega arith)
      (omega arith)

abbrev running_counts : List Scalar
running_counts = number (exact (pos 1)) ∷ number (exact (pos 2)) ∷ number (exact (pos 3)) ∷ []

count-computed : tree_aggregate running_count.fn ≡ some AggregateOp.count
unfolding is_segment_aggregate
count-computed = refl

three_rows-leaves :
    leaf_nodes test_host three_rows running_count AggregateOp.count ≡ ok three_leaves
unfolding leaf_nodes leaf_node filter_row matches aggregate_input_value value_node
three_rows-leaves = refl

three_rows-values :
    segment_tree_aggregate_values test_host test_window three_rows running_count
    ≡ ok (some running_counts)
unfolding segment_tree_aggregate_values is_segment_aggregate leaf_nodes leaf_node filter_row matches
    aggregate_input_value value_node build_tree build_loop merge_nodes merge_order_value fill_leaves
    size_loop frame_values frame_span effective_frame rows_frame_span bound_index normalize_span
    clamp ◌+ℤ◌ query query_loop left_step right_step aggregate_value
three_rows-values = refl

segment_tree_aggregate_values-AreFrameValues_example :
    AreFrameValues test_host test_window three_rows running_count AggregateOp.count three_leaves 0
      three_rows running_counts
segment_tree_aggregate_values-AreFrameValues_example =
    segment_tree_aggregate_values-AreFrameValues test_host test_window three_rows running_count
      AggregateOp.count three_leaves running_counts count-computed three_rows-leaves
      three_rows-values
