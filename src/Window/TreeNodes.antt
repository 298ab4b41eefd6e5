-- ===== src/Window/TreeNodes.antt =====
-- The tree of packages/core/src/window-segment-tree.ts: what its nodes hold.
use lakeql.Base.{
  ℕ, zero, suc, ◌+◌, ◌-◌, ◌*◌, ◌≤◌, ◌<◌, ◌≡◌, refl, sym, ap, ◌∙◌, arith, true, List, [], ◌∷◌, ◌++◌,
  ◌==◌, length, Bool-cases, inl, inr,
}
use lakeql.Base.Result.{ok, >>=-eq-ok}
use lakeql.Scalars.{Host}
use lakeql.Window.Tree.{
  SegmentNode, Nodes, empty_node, set_node, size_loop, fill_leaves, merge_nodes, build_loop,
}

-- The node comes from merging the nodes of a list, in order.
pub data Merged (host : Host) : List SegmentNode → SegmentNode → Type 0 where
  nothing : Merged host [] empty_node
  single : {node : SegmentNode} → Merged host (node ∷ []) node
  both :
      {xs ys : List SegmentNode} {a b c : SegmentNode}
      → Merged host xs a
      → Merged host ys b
      → merge_nodes host a b ≡ ok c
      → Merged host (xs ++ ys) c

-- `count` nodes, from an index on.
unfoldable pub stretch : Nodes → ℕ → ℕ → List SegmentNode
stretch nodes at zero = []
stretch nodes at (suc count) = nodes at ∷ stretch nodes (at + 1) count

pub stretch-append :
    (nodes : Nodes) (at m n : ℕ)
    → stretch nodes at (m + n) ≡ stretch nodes at m ++ stretch nodes (at + m) n
unfolding stretch
stretch-append nodes at zero n = rw (plus_zero n) (rw (at_zero at) refl)
  where
    plus_zero : (k : ℕ) → 0 + k ≡ k
    plus_zero k = omega arith

    at_zero : (k : ℕ) → k + 0 ≡ k
    at_zero k = omega arith
stretch-append nodes at (suc m) n =
    rw (left m n) (rw (right at m) (ap (λ t. nodes at ∷ t) (stretch-append nodes (at + 1) m n)))
  where
    left : (a b : ℕ) → suc a + b ≡ suc (a + b)
    left a b = omega arith

    right : (a b : ℕ) → a + suc b ≡ a + 1 + b
    right a b = omega arith

-- The nodes from one index up to another.
abbrev pub between : Nodes → ℕ → ℕ → List SegmentNode
between nodes from to = stretch nodes from (to - from)

pub between-append :
    (nodes : Nodes) (from middle to : ℕ)
    → from ≤ middle
    → middle ≤ to
    → between nodes from to ≡ between nodes from middle ++ between nodes middle to
unfolding stretch
between-append nodes from middle to h k =
    rw (sizes from middle to h k)
      (stretch-append nodes from (middle - from) (to - middle) ∙ rw (ends from middle h) refl)
  where
    sizes : (a b c : ℕ) → a ≤ b → b ≤ c → c - a ≡ b - a + (c - b)
    sizes a b c h k = omega (arith, h, k)

    ends : (a b : ℕ) → a ≤ b → a + (b - a) ≡ b
    ends a b h = omega (arith, h)

pub size_loop-le :
    (fuel size leaves : ℕ) → leaves ≤ size + fuel → 0 < size → leaves ≤ size_loop fuel size leaves
unfolding size_loop
size_loop-le zero size leaves f p = omega (arith, f)
size_loop-le (suc fuel) size leaves f p = ground (arith, f, p, size_loop-le fuel (size * 2) leaves)

-- Writing leaves leaves what is outside of them.
pub fill_leaves-outside :
    (nodes : Nodes) (at : ℕ) (leaves : List SegmentNode) (i : ℕ)
    → i < at
    → fill_leaves nodes at leaves i ≡ nodes i
unfolding fill_leaves
fill_leaves-outside nodes at [] i h = refl
fill_leaves-outside nodes at (leaf ∷ leaves) i h =
    fill_leaves-outside (set_node nodes at leaf) (at + 1) leaves i (omega (arith, h))
    ∙ ground (arith, h)

pub fill_leaves-stretch :
    (nodes : Nodes) (at : ℕ) (leaves : List SegmentNode)
    → stretch (fill_leaves nodes at leaves) at (length leaves) ≡ leaves
unfolding fill_leaves stretch
fill_leaves-stretch nodes at [] = refl
fill_leaves-stretch nodes at (leaf ∷ leaves) =
    let first = fill_leaves-outside (set_node nodes at leaf) (at + 1) leaves at (omega arith) in
    rw (fill_leaves-stretch (set_node nodes at leaf) (at + 1) leaves) (rw first (ground arith))

set_node-same : (nodes : Nodes) (k : ℕ) (node : SegmentNode) → set_node nodes k node k ≡ node
set_node-same nodes k node = ground arith

set_node-other :
    (nodes : Nodes) (k i : ℕ) (node : SegmentNode) → k < i → set_node nodes k node i ≡ nodes i
set_node-other nodes k i node h = ground (arith, h)

le_mul : (i w : ℕ) → 0 < w → i ≤ i * w
le_mul i zero h = absurd (omega (arith, h))
le_mul i (suc w) h = omega arith

module _ (host : Host) where
  -- Each inner node is merged from its two children.
  pub IsBuilt : ℕ → Nodes → Type 0
  IsBuilt most nodes =
      (i : ℕ)
      → 0 < i
      → i ≤ most
      → merge_nodes host (nodes (i * 2)) (nodes (i * 2 + 1)) ≡ ok (nodes i)

  up_to :
      (most : ℕ) (built : Nodes)
      → IsBuilt most built
      → merge_nodes host (built (suc most * 2)) (built (suc most * 2 + 1)) ≡ ok (built (suc most))
      → IsBuilt (suc most) built
  unfolding IsBuilt
  up_to most built inner top i p l = elim (Bool-cases (i == suc most)) [
    | inl q ↦ rw (is_top i most q) top
    | inr q ↦ inner i p (ground (arith, q, l))
  ]
    where
      is_top : (j k : ℕ) → (j == suc k) ≡ true → j ≡ suc k
      is_top j k h = ground (arith, h)

  pub build_loop-IsBuilt :
      (most : ℕ) (nodes built : Nodes)
      → build_loop host most nodes ≡ ok built
      → IsBuilt most built × ((i : ℕ) → most < i → built i ≡ nodes i)
  unfolding build_loop IsBuilt
  build_loop-IsBuilt zero nodes built e =
      (λ i p l. absurd (omega (arith, p, l)), λ i l. ground (arith, e))
  build_loop-IsBuilt (suc most) nodes built e =
      let (node, m, r) =
        >>=-eq-ok (merge_nodes host (nodes (suc most * 2)) (nodes (suc most * 2 + 1))) _ e in
      let (inner, outer) = build_loop-IsBuilt most (set_node nodes (suc most) node) built r in
      (
        up_to most built inner (
            rw
              (outer (suc most * 2) (omega arith)
                ∙ set_node-other nodes (suc most) (suc most * 2) node (omega arith))
              (rw
                (outer (suc most * 2 + 1) (omega arith)
                  ∙ set_node-other nodes (suc most) (suc most * 2 + 1) node (omega arith))
                (rw (outer (suc most) (omega arith) ∙ set_node-same nodes (suc most) node) m))),
        λ i l. outer i (omega (arith, l)) ∙ set_node-other nodes (suc most) i node l,
      )

  -- At a level whose nodes have `width` leaves, each node is merged from the leaves below it. The leaves
  -- of the tree stand behind its inner nodes.
  module _ (nodes : Nodes) (size : ℕ) where
    abbrev pub Level : ℕ → Type 0
    Level width =
        (i : ℕ)
        → size ≤ i * width
        → (i + 1) * width ≤ 2 * size
        → Merged host (between nodes (i * width) ((i + 1) * width)) (nodes i)

    moved :
        (from to from' to' : ℕ) (node : SegmentNode)
        → from ≡ from'
        → to ≡ to'
        → Merged host (between nodes from to) node
        → Merged host (between nodes from' to') node
    moved from to from' to' node p q m = rw (sym p) (rw (sym q) m)

    pub bottom : Level 1
    unfolding stretch
    bottom i l h = rw (one_wide i) (rw (same i) Merged.single)
      where
        one_wide : (k : ℕ) → (k + 1) * 1 - k * 1 ≡ 1
        one_wide k = omega arith

        same : (k : ℕ) → k * 1 ≡ k
        same k = omega arith

    pub next-Level :
        (width : ℕ)
        → 0 < size
        → 0 < width
        → IsBuilt (size - 1) nodes
        → Level width
        → Level (2 * width)
    unfolding IsBuilt
    next-Level width p w b level zero l h = absurd (omega (arith, l, p))
    next-Level width p w b level (suc i) l h =
        let first = level (suc i * 2) (omega (arith, l)) (omega (arith, h)) in
        let second = level (suc i * 2 + 1) (omega (arith, l)) (omega (arith, h)) in
        let middle = (suc i * 2 + 1) * width in
        let merged = b (suc i) (omega arith) (omega (arith, h, le_mul (suc i + 1) width w)) in
        rw
          (between-append nodes (suc i * (2 * width)) middle ((suc i + 1) * (2 * width))
            (omega arith) (omega arith))
          (Merged.both
            (moved (suc i * 2 * width) middle (suc i * (2 * width)) middle (nodes (suc i * 2))
              (omega arith) refl first)
            (moved middle ((suc i * 2 + 1 + 1) * width) middle ((suc i + 1) * (2 * width))
              (nodes (suc i * 2 + 1)) refl (omega arith) second)
            merged)
