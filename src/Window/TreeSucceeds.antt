-- ===== src/Window/TreeSucceeds.antt =====
-- Building the tree of packages/core/src/window-segment-tree.ts and querying it succeeds on leaves whose least
-- and greatest values compare with each other.
use lakeql.Base.{
  ℕ, zero, suc, ◌+◌, ◌-◌, ◌*◌, ◌/◌, ◌%◌, ◌≤◌, ◌≡◌, arith, Ordering, Bool, true, false, List, [],
  ◌∷◌, Option, none, some, ltb, ◌==◌, if◌then◌else◌, length, All, Bool-cases, inl, inr,
}
use lakeql.Base.Slices.{slice}
use lakeql.Base.Result.{ok}
use lakeql.Base.Returns.{Returns-ok, Succeeds, succeeds, Succeeds-bind, Succeeds-if, Succeeds-ok}
use lakeql.Expr.{Scalar}
use lakeql.Scalars.{Host}
use lakeql.Sorting.{compare_aggregate_scalars}
use lakeql.Window.Frames.{FrameSpan}
use lakeql.Window.Tree.{
  SegmentNode, Nodes, empty_node, set_node, size_loop, fill_leaves, SegmentTree, merge_order_value,
  merge_nodes, build_loop, build_tree, left_step, right_step, query_loop, query,
}
use lakeql.Window.TreeNodes.{Merged}
use lakeql.Window.TreeAnswers.{total_count, query-Merged}

abbrev pub IfSome : (Scalar → Type 0) → Option Scalar → Type 0
IfSome C none = Unit
IfSome C (some v) = C v

-- The least and the greatest value of a node, if it has them, are in a class of scalars.
abbrev pub Holds : (Scalar → Type 0) → SegmentNode → Type 0
Holds C node = IfSome C node.least × IfSome C node.greatest

-- Scalars of the class compare without an error.
abbrev pub AreComparable : Host → (Scalar → Type 0) → Type 0
AreComparable host C =
    (a b : Scalar) → C a → C b → (o : Ordering) × (compare_aggregate_scalars host a b ≡ ok o)

module _ (host : Host) (C : Scalar → Type 0) (compare : AreComparable host C) where
  merge_order_value-Succeeds :
      (test : Ordering → Bool) (l r : Option Scalar)
      → IfSome C l
      → IfSome C r
      → Succeeds (IfSome C) (merge_order_value host test l r)
  unfolding merge_order_value
  merge_order_value-Succeeds test none r p q = succeeds q
  merge_order_value-Succeeds test (some l) none p q = succeeds p
  merge_order_value-Succeeds test (some l) (some r) p q =
      let (o, e) = compare l r p q in rw e (succeeds (either (test o)))
    where
      either : (b : Bool) → IfSome C (if b then some l else some r)
      either true = p
      either false = q

  merge_nodes-Succeeds :
      (a b : SegmentNode) → Holds C a → Holds C b → Succeeds (Holds C) (merge_nodes host a b)
  unfolding merge_nodes
  merge_nodes-Succeeds a b (al, ag) (bl, bg) = Succeeds-if (a.count == 0) (succeeds (bl, bg)) (
      Succeeds-if (b.count == 0) (succeeds (al, ag)) (
        Succeeds-bind (merge_order_value-Succeeds _ a.least b.least al bl) (λ least l.
          Succeeds-bind (merge_order_value-Succeeds _ a.greatest b.greatest ag bg)
            (λ greatest g. succeeds (l, g)))))

  abbrev AllHold : Nodes → Type 0
  AllHold nodes = (i : ℕ) → Holds C (nodes i)

  set_node-AllHold :
      (nodes : Nodes) (at : ℕ) (node : SegmentNode)
      → AllHold nodes
      → Holds C node
      → AllHold (set_node nodes at node)
  set_node-AllHold nodes at node h p i = elim (Bool-cases (i == at)) [
    | inl e ↦ rw e p
    | inr e ↦ rw e (h i)
  ]

  fill_leaves-AllHold :
      (nodes : Nodes) (at : ℕ) (leaves : List SegmentNode)
      → AllHold nodes
      → All (Holds C) leaves
      → AllHold (fill_leaves nodes at leaves)
  unfolding fill_leaves
  fill_leaves-AllHold nodes at [] h a = h
  fill_leaves-AllHold nodes at (leaf ∷ leaves) h (p, a) =
      fill_leaves-AllHold (set_node nodes at leaf) (at + 1) leaves
        (set_node-AllHold nodes at leaf h p) a

  build_loop-Succeeds :
      (index : ℕ) (nodes : Nodes) → AllHold nodes → Succeeds AllHold (build_loop host index nodes)
  unfolding build_loop
  build_loop-Succeeds zero nodes h = succeeds h
  build_loop-Succeeds (suc index) nodes h =
      Succeeds-bind
        (merge_nodes-Succeeds (nodes (suc index * 2)) (nodes (suc index * 2 + 1))
          (h (suc index * 2)) (h (suc index * 2 + 1)))
        (λ node p.
          build_loop-Succeeds index (set_node nodes (suc index) node)
            (set_node-AllHold nodes (suc index) node h p))

  build_tree-Succeeds :
      (leaves : List SegmentNode)
      → All (Holds C) leaves
      → Succeeds (λ tree. AllHold tree.nodes) (build_tree host leaves)
  unfolding build_tree
  build_tree-Succeeds leaves a =
      let size = size_loop (length leaves) 1 (length leaves) in
      Succeeds-bind
        (build_loop-Succeeds (size - 1) (fill_leaves (λ i. empty_node) size leaves)
          (fill_leaves-AllHold (λ i. empty_node) size leaves (λ i. (tt, tt)) a))
        (λ nodes h. succeeds h)

  left_step-Succeeds :
      (nodes : Nodes) (left : ℕ) (node : SegmentNode)
      → AllHold nodes
      → Holds C node
      → Succeeds (λ q. Holds C q.0) (left_step host nodes left node)
  unfolding left_step
  left_step-Succeeds nodes left node h p =
      Succeeds-if (left % 2 == 1)
        (Succeeds-bind (merge_nodes-Succeeds node (nodes left) p (h left)) (λ n k. succeeds k))
        (succeeds p)

  right_step-Succeeds :
      (nodes : Nodes) (right : ℕ) (node : SegmentNode)
      → AllHold nodes
      → Holds C node
      → Succeeds (λ q. Holds C q.0 × (q.1 ≤ right)) (right_step host nodes right node)
  unfolding right_step
  right_step-Succeeds nodes right node h p =
      Succeeds-if (right % 2 == 1)
        (Succeeds-bind (merge_nodes-Succeeds (nodes (right - 1)) node (h (right - 1)) p)
          (λ n k. succeeds (k, omega arith)))
        (succeeds (p, omega arith))

  -- The rounds are enough: the right end is halved in each.
  query_loop-Succeeds :
      (fuel : ℕ) (nodes : Nodes) (left right : ℕ) (l r : SegmentNode)
      → AllHold nodes
      → right ≤ fuel
      → Holds C l
      → Holds C r
      → Succeeds (Holds C) (query_loop host fuel nodes left right l r)
  unfolding query_loop
  query_loop-Succeeds zero nodes left right l r h f p q =
      rw (none_left left right f) (merge_nodes-Succeeds l r p q)
    where
      none_left : (j k : ℕ) → k ≤ 0 → ltb j k ≡ false
      none_left j k f = ground (arith, f)
  query_loop-Succeeds (suc fuel) nodes left right l r h f p q =
      Succeeds-if (ltb left right)
        (Succeeds-bind (left_step-Succeeds nodes left l h p) (λ (l', left') p'.
          Succeeds-bind (right_step-Succeeds nodes right r h q) (λ (r', right') (q', k).
            query_loop-Succeeds fuel nodes (left' / 2) (right' / 2) l' r' h (omega (arith, f, k)) p'
              q')))
        (merge_nodes-Succeeds l r p q)

  query-Succeeds :
      (tree : SegmentTree) (s : FrameSpan)
      → AllHold tree.nodes
      → Succeeds (Holds C) (query host tree s)
  unfolding query
  query-Succeeds tree s h =
      query_loop-Succeeds (s.end + tree.size) tree.nodes (s.start + tree.size) (s.end + tree.size)
        empty_node empty_node h (omega arith) (tt, tt) (tt, tt)

  -- From leaves whose least and greatest values compare with each other, a tree is built; the query of a span
  -- of the leaves in it returns a node that merges the leaves of the span, from the first to the last and each
  -- once, with the sum of their counts.
  pub query-build_tree :
      (leaves : List SegmentNode) (s : FrameSpan)
      → All (Holds C) leaves
      → s.start ≤ s.end
      → s.end ≤ length leaves
      → (tree : SegmentTree) × (node : SegmentNode) × (build_tree host leaves ≡ ok tree)
        × (query host tree s ≡ ok node)
        × Merged host (slice leaves s.start s.end) node
        × (node.count ≡ total_count (slice leaves s.start s.end))
  query-build_tree leaves s a h k =
      let (tree, built, held) = Succeeds-ok (build_tree-Succeeds leaves a) in
      let (node, found, kept) = Succeeds-ok (query-Succeeds tree s held) in
      let (merged, count) = Returns-ok (query-Merged host leaves tree s built h k) found in
      (tree, node, built, found, merged, count)
