-- ===== src/Window/Tree.antt =====
-- packages/core/src/window-segment-tree.ts: aggregates over the frames of a partition, by a tree of merged
-- nodes. An array is the function of its indices, with the empty node where the source has none.
use lakeql.Base.{
  ℕ, zero, suc, ◌+◌, ◌-◌, ◌*◌, ◌/◌, ◌%◌, Ordering, Bool, true, false, List, [], ◌∷◌, Option, none,
  some, ltb, ◌==◌, if◌then◌else◌, length,
}
use lakeql.Base.Int.{pos}
use lakeql.Base.Order.{is_le, flip}
use lakeql.Base.Result.{Result, ok, err, fuel_exhausted, ◌>>=◌}
use lakeql.Expr.{Number, finite, Scalar, ArithmeticOp}
use lakeql.Scalars.{Host, exact}
use lakeql.Sorting.{compare_aggregate_scalars}
use lakeql.Window.{AggregateOp}
use lakeql.Window.Frames.{FrameSpan}

pub record SegmentNode : Type 0 where
  pub count : ℕ
  pub sum : Number
  pub mean : Number
  pub m2 : Number
  pub least : Option Scalar
  pub greatest : Option Scalar

abbrev pub zero_number : Number
zero_number = finite (pos 0)

abbrev pub empty_node : SegmentNode
empty_node = record {
  count = 0;
  sum = zero_number;
  mean = zero_number;
  m2 = zero_number;
  least = none;
  greatest = none;
}

unfoldable pub is_segment_aggregate : AggregateOp → Bool
is_segment_aggregate AggregateOp.count = true
is_segment_aggregate AggregateOp.sum = true
is_segment_aggregate AggregateOp.avg = true
is_segment_aggregate AggregateOp.min = true
is_segment_aggregate AggregateOp.max = true
is_segment_aggregate AggregateOp.var_samp = true
is_segment_aggregate AggregateOp.var_pop = true
is_segment_aggregate AggregateOp.stddev_samp = true
is_segment_aggregate AggregateOp.stddev_pop = true
is_segment_aggregate op = false

-- `while (size < leaves.length) size *= 2`: the size grows each round, so the number of leaves bounds the
-- rounds.
unfoldable pub size_loop : ℕ → ℕ → ℕ → ℕ
size_loop zero size leaves = size
size_loop (suc fuel) size leaves =
    let more = size_loop fuel (size * 2) leaves in if ltb size leaves then more else size

abbrev pub Nodes : Type 0
Nodes = ℕ → SegmentNode

abbrev pub set_node : Nodes → ℕ → SegmentNode → Nodes
set_node nodes i node j = if j == i then node else nodes j

-- `this.nodes[size + index] = leaves[index]`, from an index on.
unfoldable pub fill_leaves : Nodes → ℕ → List SegmentNode → Nodes
fill_leaves nodes at [] = nodes
fill_leaves nodes at (leaf ∷ leaves) = fill_leaves (set_node nodes at leaf) (at + 1) leaves

pub record SegmentTree : Type 0 where
  pub size : ℕ
  pub nodes : Nodes

module _ (host : Host) where
  -- `mergeOrderValue`: the left value stays where the test passes.
  unfoldable pub merge_order_value :
      (Ordering → Bool) → Option Scalar → Option Scalar → Result (Option Scalar)
  unfolding compare_aggregate_scalars
  merge_order_value test none right = ok right
  merge_order_value test (some l) none = ok (some l)
  merge_order_value test (some l) (some r) = do
    o ← compare_aggregate_scalars host l r
    ok (if test o then some l else some r)

  abbrev plus : Number → Number → Number
  plus x y = host.arithmetic_op ArithmeticOp.add x y

  abbrev times : Number → Number → Number
  times x y = host.arithmetic_op ArithmeticOp.mul x y

  abbrev over : Number → Number → Number
  over x y = host.arithmetic_op ArithmeticOp.div x y

  abbrev number_of : ℕ → Number
  number_of n = exact (pos n)

  unfoldable pub merge_nodes : SegmentNode → SegmentNode → Result SegmentNode
  unfolding merge_order_value
  merge_nodes left right =
      let count = left.count + right.count in
      let delta = host.arithmetic_op ArithmeticOp.sub right.mean left.mean in
      let both = times (number_of left.count) (number_of right.count) in
      let merged = do
        least ← merge_order_value is_le left.least right.least
        greatest ← merge_order_value (λ o. is_le (flip o)) left.greatest right.greatest
        ok (record {
          count = count;
          sum = plus left.sum right.sum;
          mean = plus left.mean (over (times delta (number_of right.count)) (number_of count));
          m2 =
              plus (plus left.m2 right.m2)
                (over (times (times delta delta) both) (number_of count));
          least = least;
          greatest = greatest;
        })
      in if left.count == 0 then ok right else if right.count == 0 then ok left else merged

  -- `for (index = size - 1; index > 0; index -= 1)`, from an index down.
  unfoldable pub build_loop : ℕ → Nodes → Result Nodes
  unfolding merge_nodes
  build_loop zero nodes = ok nodes
  build_loop (suc index) nodes = do
    node ← merge_nodes (nodes (suc index * 2)) (nodes (suc index * 2 + 1))
    build_loop index (set_node nodes (suc index) node)

  unfoldable pub build_tree : List SegmentNode → Result SegmentTree
  unfolding size_loop fill_leaves build_loop
  build_tree leaves = do
    let size = size_loop (length leaves) 1 (length leaves)
    nodes ← build_loop (size - 1) (fill_leaves (λ i. empty_node) size leaves)
    ok (record { size = size; nodes = nodes })

  -- An odd left end is taken in, and so is what lies before an odd right end.
  unfoldable pub left_step : Nodes → ℕ → SegmentNode → Result (SegmentNode × ℕ)
  unfolding merge_nodes
  left_step nodes left node =
      let taken = merge_nodes node (nodes left) in
      if left % 2 == 1 then (do n ← taken; ok (n, left + 1)) else ok (node, left)

  unfoldable pub right_step : Nodes → ℕ → SegmentNode → Result (SegmentNode × ℕ)
  unfolding merge_nodes
  right_step nodes right node =
      let taken = merge_nodes (nodes (right - 1)) node in
      if right % 2 == 1 then (do n ← taken; ok (n, right - 1)) else ok (node, right)

  -- `while (left < right)`: both ends are halved, so that `right` bounds the rounds.
  unfoldable pub query_loop : ℕ → Nodes → ℕ → ℕ → SegmentNode → SegmentNode → Result SegmentNode
  unfolding merge_nodes left_step right_step
  query_loop zero nodes left right l r =
      if ltb left right then err fuel_exhausted else merge_nodes l r
  query_loop (suc fuel) nodes left right l r =
      let next = do
        (l', left') ← left_step nodes left l
        (r', right') ← right_step nodes right r
        query_loop fuel nodes (left' / 2) (right' / 2) l' r'
      in if ltb left right then next else merge_nodes l r

  unfoldable pub query : SegmentTree → FrameSpan → Result SegmentNode
  unfolding query_loop
  query tree span =
      let right = span.end + tree.size in
      query_loop right tree.nodes (span.start + tree.size) right empty_node empty_node
