-- ===== src/Window/FrameValues.antt =====
-- Aggregates over frames (packages/core/src/window-segment-tree.ts): the tree and the frames together.
use lakeql.Base.{
  ℕ, ◌+◌, ◌≡◌, refl, arith, ◌||◌, not, List, [], ◌∷◌, some, length, Bool-cases, inl, inr,
}
use lakeql.Base.Result.{ok, >>=-eq-ok}
use lakeql.Base.Returns.{Ensures, returned, Ensures-ok, Ensures-bind_eq, Returns-ok}
use lakeql.Expr.{Scalar}
use lakeql.Scalars.{Host}
use lakeql.Window.{AggregateOp, WindowExpr, WindowRow, WindowHost}
use lakeql.Window.Frames.{FrameSpan}
use lakeql.Window.RangeFrames.{frame_span}
use lakeql.Window.Spans.{frame_span-IsAmong}
use lakeql.Window.Tree.{SegmentNode, SegmentTree, build_tree, query}
use lakeql.Window.Aggregates.{
  tree_aggregate, excludes_none, leaf_node, leaf_nodes, aggregate_value, frame_values, tree_values,
  segment_tree_aggregate_values,
}
use lakeql.Window.TreeNodes.{Merged}
use lakeql.Base.Slices.{slice}
use lakeql.Window.TreeAnswers.{total_count, query-Merged}

module _ (host : Host) (window : WindowHost) (partition : List WindowRow) (expr : WindowExpr)
    (op : AggregateOp) (leaves : List SegmentNode) where
  -- A value of the row at an index: the aggregate of a node that merges the leaves of the row's frame.
  abbrev pub IsFrameValue : ℕ → Scalar → Type 0
  IsFrameValue index value =
      (s : FrameSpan) × (node : SegmentNode) × (frame_span host window partition index expr ≡ ok s)
      × Merged host (slice leaves s.start s.end) node
      × (node.count ≡ total_count (slice leaves s.start s.end))
      × (aggregate_value host window op node ≡ ok value)

  -- A value for each row, from an index on.
  abbrev pub AreFrameValues : ℕ → List WindowRow → List Scalar → Type 0
  AreFrameValues index [] [] = Unit
  AreFrameValues index [] (v ∷ vs) = ⊥
  AreFrameValues index (row ∷ rows) [] = ⊥
  AreFrameValues index (row ∷ rows) (v ∷ vs) =
      IsFrameValue index v × AreFrameValues (index + 1) rows vs

leaf_nodes-length :
    (host : Host) (rows : List WindowRow) (expr : WindowExpr) (op : AggregateOp)
    (leaves : List SegmentNode)
    → leaf_nodes host rows expr op ≡ ok leaves
    → length leaves ≡ length rows
unfolding leaf_nodes
leaf_nodes-length host [] expr op leaves e = ground (arith, e)
leaf_nodes-length host (row ∷ rows) expr op leaves e =
    let (node, a, f) = >>=-eq-ok (leaf_node host row expr op) _ e in
    let (nodes, b, g) = >>=-eq-ok (leaf_nodes host rows expr op) _ f in
    ground (arith, g, leaf_nodes-length host rows expr op nodes b)

module _ (host : Host) (window : WindowHost) (partition : List WindowRow) (expr : WindowExpr)
    (op : AggregateOp) (leaves : List SegmentNode) (tree : SegmentTree) where
  frame_values-AreFrameValues :
      length leaves ≡ length partition
      → build_tree host leaves ≡ ok tree
      → (rows : List WindowRow) (index : ℕ)
      → Ensures
          (AreFrameValues host window partition expr op leaves index rows)
          (frame_values host window tree partition expr op rows index)
  unfolding frame_values
  frame_values-AreFrameValues l b [] index = returned tt
  frame_values-AreFrameValues l b (row ∷ rows) index =
      Ensures-bind_eq (frame_span host window partition index expr) (λ s es.
        Ensures-bind_eq (query host tree s) (λ node en.
          Ensures-bind_eq (aggregate_value host window op node) (λ value ev.
            Ensures-bind_eq (frame_values host window tree partition expr op rows (index + 1))
              (λ rest er.
                let among = Ensures-ok (frame_span-IsAmong host window partition index expr) es in
                let found =
                  Returns-ok (query-Merged host leaves tree s b among.0 (omega (arith, l, among.1)))
                    en in
                returned (
                  (s, node, es, found.0, found.1, ev),
                  Ensures-ok (frame_values-AreFrameValues l b rows (index + 1)) er,
                )))))

module _ (host : Host) (window : WindowHost) (partition : List WindowRow) (expr : WindowExpr)
    (op : AggregateOp) (leaves : List SegmentNode) where
  tree_values-AreFrameValues :
      leaf_nodes host partition expr op ≡ ok leaves
      → Ensures
          (λ o.
            (values : List Scalar) × (o ≡ some values)
            × AreFrameValues host window partition expr op leaves 0 partition values)
          (tree_values host window partition expr (some op))
  tree_values-AreFrameValues l = rw l (
      Ensures-bind_eq (build_tree host leaves) (λ tree b.
        Ensures-bind_eq (frame_values host window tree partition expr op partition 0) (λ values e.
          returned (
            values,
            refl,
            Ensures-ok
                (frame_values-AreFrameValues host window partition expr op leaves tree
                  (leaf_nodes-length host partition expr op leaves l) b partition 0)
                e,
          ))))

  -- Where the tree computes an aggregate of a window expression, its value at each row is the aggregate of a
  -- node that merges the leaves of the frame of that row, from the first to the last and each once, and that
  -- counts what they count; there is one value for each row.
  pub segment_tree_aggregate_values-AreFrameValues :
      (values : List Scalar)
      → tree_aggregate expr.fn ≡ some op
      → leaf_nodes host partition expr op ≡ ok leaves
      → segment_tree_aggregate_values host window partition expr ≡ ok (some values)
      → AreFrameValues host window partition expr op leaves 0 partition values
  unfolding segment_tree_aggregate_values
  segment_tree_aggregate_values-AreFrameValues values t l e =
      elim (Bool-cases (expr.distinct || not (excludes_none expr.over.frame))) [
        | inl x ↦ absurd (cc (rw x at e))
        | inr x ↦
            let (vs, o, a) = Ensures-ok (tree_values-AreFrameValues l) (rw t at (rw x at e)) in
            rw (← same vs o) a
      ]
    where
      same : (vs : List Scalar) → some values ≡ some vs → vs ≡ values
      same vs o = cc
