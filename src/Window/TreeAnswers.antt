-- ===== src/Window/TreeAnswers.antt =====
-- What a tree that is built from leaves answers (packages/core/src/window-segment-tree.ts).
use lakeql.Base.{
  ℕ, zero, suc, ◌+◌, ◌-◌, ◌*◌, ◌≤◌, ◌<◌, ◌≡◌, refl, ap, ◌∙◌, arith, List, [], ◌∷◌, ◌++◌, ◌==◌,
  length, Bool-cases, inl, inr,
}
use lakeql.Base.Slices.{drop, take, slice}
use lakeql.Base.Result.{ok}
use lakeql.Base.Returns.{
  Returns, Returns-mono, Ensures, returned, Ensures-bind, Ensures-ok, Ensures-eq,
}
use lakeql.Scalars.{Host}
use lakeql.Window.Frames.{FrameSpan}
use lakeql.Window.Tree.{
  SegmentNode, Nodes, empty_node, size_loop, fill_leaves, SegmentTree, merge_nodes, build_loop,
  build_tree, query,
}
use lakeql.Window.TreeNodes.{
  Merged, stretch, between, size_loop-le, fill_leaves-stretch, IsBuilt, build_loop-IsBuilt, bottom,
}
use lakeql.Window.TreeQuery.{query_loop-Answers}

abbrev pub total_count : List SegmentNode → ℕ
total_count [] = 0
total_count (node ∷ nodes) = node.count + total_count nodes

size_loop-pos : (fuel size leaves : ℕ) → 0 < size → 0 < size_loop fuel size leaves
unfolding size_loop
size_loop-pos zero size leaves p = p
size_loop-pos (suc fuel) size leaves p = ground (arith, p, size_loop-pos fuel (size * 2) leaves)

stretch-agree :
    (a b : Nodes) (at count : ℕ)
    → ((i : ℕ) → at ≤ i → a i ≡ b i)
    → stretch a at count ≡ stretch b at count
unfolding stretch
stretch-agree a b at zero h = refl
stretch-agree a b at (suc count) h =
    rw (h at (omega arith))
      (ap (λ t. b at ∷ t) (stretch-agree a b (at + 1) count (λ i l. h i (omega (arith, l)))))

stretch-take :
    (nodes : Nodes) (at n count : ℕ)
    → count ≤ n
    → stretch nodes at count ≡ take count (stretch nodes at n)
unfolding stretch take
stretch-take nodes at n zero h = refl
stretch-take nodes at zero (suc count) h = absurd (omega (arith, h))
stretch-take nodes at (suc n) (suc count) h =
    ap (λ t. nodes at ∷ t) (stretch-take nodes (at + 1) n count (omega (arith, h)))

stretch-drop :
    (nodes : Nodes) (at n start : ℕ)
    → stretch nodes (at + start) (n - start) ≡ drop start (stretch nodes at n)
unfolding stretch drop
stretch-drop nodes at n zero = rw (at_zero at) (rw (less_zero n) refl)
  where
    at_zero : (k : ℕ) → k + 0 ≡ k
    at_zero k = omega arith

    less_zero : (k : ℕ) → k - 0 ≡ k
    less_zero k = omega arith
stretch-drop nodes at zero (suc start) = rw (none_left start) refl
  where
    none_left : (k : ℕ) → 0 - suc k ≡ 0
    none_left k = omega arith
stretch-drop nodes at (suc n) (suc start) =
    rw (further at start) (rw (one_less n start) (stretch-drop nodes (at + 1) n start))
  where
    further : (j k : ℕ) → j + suc k ≡ j + 1 + k
    further j k = omega arith

    one_less : (j k : ℕ) → suc j - suc k ≡ j - k
    one_less j k = omega arith

module _ (host : Host) where
  merge_nodes-count :
      (a b : SegmentNode) → Ensures (λ c. c.count ≡ a.count + b.count) (merge_nodes host a b)
  unfolding merge_nodes
  merge_nodes-count a b = elim (Bool-cases (a.count == 0)) [
    | inl x ↦ rw x (returned (ground (arith, x)))
    | inr x ↦ elim (Bool-cases (b.count == 0)) [
      | inl y ↦ rw x (rw y (returned (ground (arith, y))))
      | inr y ↦ rw x (rw y (search (Ensures-bind, Ensures.returned) depth 20))
    ]
  ]

  total_count-append :
      (xs ys : List SegmentNode) → total_count (xs ++ ys) ≡ total_count xs + total_count ys
  total_count-append [] ys = omega arith
  total_count-append (x ∷ xs) ys = omega (arith, total_count-append xs ys)

  Merged-count :
      {nodes : List SegmentNode} {node : SegmentNode}
      → Merged host nodes node
      → node.count ≡ total_count nodes
  Merged-count Merged.nothing = refl
  Merged-count Merged.single = omega arith
  Merged-count (Merged.both {xs} {ys} {a} {b} {c} m n e) = omega (
    arith,
    Merged-count m,
    Merged-count n,
    Ensures-ok (merge_nodes-count a b) e,
    total_count-append xs ys,
  )

  -- What building guarantees of a tree.
  IsTreeOf : List SegmentNode → SegmentTree → Type 0
  IsTreeOf leaves tree =
      (0 < tree.size)
      × (length leaves ≤ tree.size)
      × IsBuilt host (tree.size - 1) tree.nodes
      × (stretch tree.nodes tree.size (length leaves) ≡ leaves)

  built_tree :
      (leaves : List SegmentNode) (size : ℕ) (built : Nodes)
      → 0 < size
      → length leaves ≤ size
      → build_loop host (size - 1) (fill_leaves (λ i. empty_node) size leaves) ≡ ok built
      → IsTreeOf leaves (record { size = size; nodes = built })
  unfolding IsTreeOf
  built_tree leaves size built p l e =
      let filled = fill_leaves (λ i. empty_node) size leaves in
      let (inner, outer) = build_loop-IsBuilt host (size - 1) filled built e in
      (
        p,
        l,
        inner,
        stretch-agree built filled size (length leaves) (λ i h. outer i (omega (arith, h, p)))
            ∙ fill_leaves-stretch (λ i. empty_node) size leaves,
      )

  build_tree-IsTreeOf :
      (leaves : List SegmentNode) → Ensures (IsTreeOf leaves) (build_tree host leaves)
  unfolding build_tree
  build_tree-IsTreeOf leaves =
      let size = size_loop (length leaves) 1 (length leaves) in
      let filled = fill_leaves (λ i. empty_node) size leaves in
      Ensures-eq (build_loop host (size - 1) filled)
        (λ built. record { size = size; nodes = built })
        (λ built e.
          built_tree leaves size built
            (size_loop-pos (length leaves) 1 (length leaves) (omega arith))
            (size_loop-le (length leaves) 1 (length leaves) (omega arith) (omega arith)) e)

  between-slice :
      (leaves : List SegmentNode) (tree : SegmentTree) (start end : ℕ)
      → IsTreeOf leaves tree
      → end ≤ length leaves
      → between tree.nodes (start + tree.size) (end + tree.size) ≡ slice leaves start end
  unfolding IsTreeOf
  between-slice leaves tree start end (p, l, b, e) h = rw (moved start tree.size) (
      rw (sizes start end tree.size) (
        stretch-take tree.nodes (tree.size + start) (length leaves - start) (end - start)
          (omega (arith, h))
        ∙ ap (take (end - start))
            (stretch-drop tree.nodes tree.size (length leaves) start ∙ ap (drop start) e)))
    where
      moved : (j k : ℕ) → j + k ≡ k + j
      moved j k = omega arith

      sizes : (i j k : ℕ) → j + k - (k + i) ≡ j - i
      sizes i j k = omega arith

  nothing_between :
      (nodes : Nodes) (from to : ℕ) → to - from ≡ 0 → Merged host (between nodes from to) empty_node
  unfolding stretch
  nothing_between nodes from to e = rw e Merged.nothing

  -- The query of a span in the tree that is built from leaves fails with an error of the program, or merges
  -- the leaves of the span, from the first to the last and each once; its count is the sum of their counts.
  pub query-Merged :
      (leaves : List SegmentNode) (tree : SegmentTree) (s : FrameSpan)
      → build_tree host leaves ≡ ok tree
      → s.start ≤ s.end
      → s.end ≤ length leaves
      → Returns
          (λ node.
            Merged host (slice leaves s.start s.end) node
            × (node.count ≡ total_count (slice leaves s.start s.end)))
          (query host tree s)
  unfolding query IsTreeOf
  query-Merged leaves tree s e h k =
      let of = Ensures-ok (build_tree-IsTreeOf leaves) e in
      let found =
        query_loop-Answers host tree.nodes tree.size (s.start + tree.size) (s.end + tree.size)
          (omega arith) (omega (arith, k, of.1)) of.0 of.2 (s.end + tree.size) 1 (omega arith)
          (bottom host tree.nodes tree.size) (s.start + tree.size) (s.end + tree.size) empty_node
          empty_node (omega arith) (omega (arith, h)) (omega arith) (omega arith)
          (nothing_between tree.nodes (s.start + tree.size) ((s.start + tree.size) * 1)
            (omega arith))
          (nothing_between tree.nodes ((s.end + tree.size) * 1) (s.end + tree.size)
            (omega arith)) in
      Returns-mono found (λ node m.
        let merged = rw (between-slice leaves tree s.start s.end of k) at m in
        (merged, Merged-count merged))
