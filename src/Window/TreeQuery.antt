-- ===== src/Window/TreeQuery.antt =====
-- A query of the tree of packages/core/src/window-segment-tree.ts merges the leaves of its span, in order.
use lakeql.Base.{
  ℕ, zero, suc, ◌+◌, ◌-◌, ◌*◌, ◌/◌, ◌%◌, ◌≤◌, ◌<◌, ◌≡◌, sym, ap, arith, Ordering, Bool, true, false,
  List, ◌++◌, Option, none, some, ltb, ◌==◌, Bool-cases, inl, inr,
}
use lakeql.Base.Returns.{
  Returns, returns, fails, IsTotal, Returns-bind, Returns-mono, Returns-if, Returns-eq,
  IsTotal-bind,
}
use lakeql.Expr.{Scalar, text, number, boolean, bigint, timestamp, Cell, scalar}
use lakeql.Scalars.{Host}
use lakeql.Sorting.{compare_same_type, compare_non_null_scalars, compare_aggregate_scalars}
use lakeql.Window.Tree.{
  SegmentNode, Nodes, merge_order_value, merge_nodes, left_step, right_step, query_loop,
}
use lakeql.Window.TreeNodes.{Merged, between, between-append, Level, next-Level, IsBuilt}

module _ (host : Host) where
  compare_same_type-IsTotal : (a b : Cell) → IsTotal (compare_same_type host a b)
  unfolding compare_same_type
  compare_same_type-IsTotal (scalar (timestamp a)) (scalar (timestamp b)) = returns tt
  compare_same_type-IsTotal (scalar (text a)) (scalar (text b)) = returns tt
  compare_same_type-IsTotal (scalar (number a)) (scalar (number b)) = returns tt
  compare_same_type-IsTotal (scalar (bigint a)) (scalar (bigint b)) = returns tt
  compare_same_type-IsTotal (scalar (boolean a)) (scalar (boolean b)) = returns tt
  compare_same_type-IsTotal a b = fails tt

  compare_aggregate_scalars-IsTotal : (a b : Scalar) → IsTotal (compare_aggregate_scalars host a b)
  unfolding compare_aggregate_scalars compare_non_null_scalars
  compare_aggregate_scalars-IsTotal a b =
      search (Returns-if, Returns.fails, compare_same_type-IsTotal) depth 20

  merge_order_value-IsTotal :
      (test : Ordering → Bool) (l r : Option Scalar) → IsTotal (merge_order_value host test l r)
  unfolding merge_order_value
  merge_order_value-IsTotal test none r = returns tt
  merge_order_value-IsTotal test (some l) none = returns tt
  merge_order_value-IsTotal test (some l) (some r) =
      Returns-bind (compare_aggregate_scalars-IsTotal l r) (λ o u. returns tt)

  merge_nodes-IsTotal : (a b : SegmentNode) → IsTotal (merge_nodes host a b)
  unfolding merge_nodes
  merge_nodes-IsTotal a b =
      search (Returns-if, Returns.returns, IsTotal-bind, merge_order_value-IsTotal) depth 20

  -- Merging what stands side by side.
  merge_nodes-Merged :
      (xs ys : List SegmentNode) {a b : SegmentNode}
      → Merged host xs a
      → Merged host ys b
      → Returns (Merged host (xs ++ ys)) (merge_nodes host a b)
  merge_nodes-Merged xs ys {a} {b} m n =
      Returns-mono (Returns-eq (merge_nodes-IsTotal a b)) (λ c e. Merged.both m n e)

mul_mono : (a b w : ℕ) → a ≤ b → a * w ≤ b * w
mul_mono a b zero h = omega arith
mul_mono a b (suc w) h = omega (arith, h, mul_mono a b w h)

-- A query in a tree of `size` leaves, of those from `start` to `end`.
module _ (host : Host) (nodes : Nodes) (size start end : ℕ) (s : size ≤ start)
    (t : end ≤ 2 * size) where
  left_step-Merged :
      (width left right : ℕ) (node : SegmentNode)
      → Level host nodes size width
      → start ≤ left * width
      → left < right
      → right * width ≤ end
      → Merged host (between nodes start (left * width)) node
      → Returns
          (λ q. (q.1 ≡ left + left % 2) × Merged host (between nodes start (q.1 * width)) q.0)
          (left_step host nodes left node)
  unfolding left_step
  left_step-Merged width left right node level a l b m = elim (Bool-cases (left % 2 == 1)) [
    | inl e ↦ rw e (
        Returns-bind
          (merge_nodes-Merged host (between nodes start (left * width))
            (between nodes (left * width) ((left + 1) * width)) m
            (level left (omega (arith, s, a))
              (omega (arith, t, b, mul_mono (left + 1) right width (omega (arith, l))))))
          (λ n k. returns (
            ground (arith, e),
            rw (between-append nodes start (left * width) ((left + 1) * width) a (omega arith)) k,
          )))
    | inr e ↦ rw e (returns (ground (arith, e), m))
  ]

  right_step-Merged :
      (width left right : ℕ) (node : SegmentNode)
      → Level host nodes size width
      → start ≤ left * width
      → left < right
      → right * width ≤ end
      → Merged host (between nodes (right * width) end) node
      → Returns
          (λ q. (q.1 ≡ right - right % 2) × Merged host (between nodes (q.1 * width) end) q.0)
          (right_step host nodes right node)
  unfolding right_step
  right_step-Merged width left zero node level a l b m = absurd (omega (arith, l))
  right_step-Merged width left (suc right) node level a l b m =
      elim (Bool-cases (suc right % 2 == 1)) [
        | inl e ↦ rw e (
            rw (last right) (
              Returns-bind
                (merge_nodes-Merged host (between nodes (right * width) ((right + 1) * width))
                  (between nodes ((right + 1) * width) end)
                  (level right (omega (arith, s, a, mul_mono left right width (omega (arith, l))))
                    (omega (arith, t, b)))
                  (rw (next right) m))
                (λ n k. returns (
                  ground (arith, e),
                  rw
                      (between-append nodes (right * width) ((right + 1) * width) end (omega arith)
                        (omega (arith, b)))
                      k,
                ))))
        | inr e ↦ rw e (returns (ground (arith, e), m))
      ]
    where
      last : (k : ℕ) → suc k - 1 ≡ k
      last k = omega arith

      next : (k : ℕ) → k + 1 ≡ suc k
      next k = omega arith

  ends_meet :
      (width left right : ℕ) (l r : SegmentNode)
      → start ≤ left * width
      → left ≤ right
      → right * width ≤ end
      → ltb left right ≡ false
      → Merged host (between nodes start (left * width)) l
      → Merged host (between nodes (right * width) end) r
      → Returns (Merged host (between nodes start end)) (merge_nodes host l r)
  ends_meet width left right l r a o b f m n =
      rw
        (between-append nodes start (right * width) end
          (omega (arith, a, mul_mono left right width o)) b)
        (merge_nodes-Merged host (between nodes start (right * width))
          (between nodes (right * width) end) (rw (sym (same left right o f)) m) n)
    where
      same : (j k : ℕ) → j ≤ k → ltb j k ≡ false → j ≡ k
      same j k o f = ground (arith, o, f)

  -- The halves of ends that are even stand for the same leaves, two of the old nodes in each new one.
  halved : (k w : ℕ) → k % 2 ≡ 0 → k / 2 * (2 * w) ≡ k * w
  halved k w h = omega (arith, ap (λ (u : ℕ). u * w) (even k h))
    where
      even : (j : ℕ) → j % 2 ≡ 0 → 2 * (j / 2) ≡ j
      even j h = omega (arith, h)

  -- The loop with these rounds left answers for all ends at this level.
  abbrev pub Answers : ℕ → ℕ → Type 0
  Answers fuel width =
      (left right : ℕ) (l r : SegmentNode)
      → start ≤ left * width
      → left ≤ right
      → right * width ≤ end
      → right ≤ fuel
      → Merged host (between nodes start (left * width)) l
      → Merged host (between nodes (right * width) end) r
      → Returns (Merged host (between nodes start end)) (query_loop host fuel nodes left right l r)

  halved-Answers :
      (fuel width : ℕ)
      → Answers fuel (2 * width)
      → (left right left' right' : ℕ) (l r : SegmentNode) → start ≤ left * width
      → right * width ≤ end
      → right ≤ suc fuel
      → ltb left right ≡ true
      → left' ≡ left + left % 2
      → right' ≡ right - right % 2
      → Merged host (between nodes start (left' * width)) l
      → Merged host (between nodes (right' * width) end) r
      → Returns
          (Merged host (between nodes start end))
          (query_loop host fuel nodes (left' / 2) (right' / 2) l r)
  halved-Answers fuel width answers left right left' right' l r a b f x el er ml mr =
      let lower = halved left' width (omega (arith, el)) in
      let upper = halved right' width (omega (arith, er)) in
      answers (left' / 2) (right' / 2) l r
        (omega (arith, lower, a, mul_mono left left' width (omega (arith, el))))
        (ground (arith, el, er, x))
        (omega (arith, upper, b, mul_mono right' right width (omega (arith, er))))
        (omega (arith, er, f)) (rw lower ml) (rw upper mr)

  pub query_loop-Answers :
      0 < size
      → IsBuilt host (size - 1) nodes
      → (fuel width : ℕ) → 0 < width
      → Level host nodes size width
      → Answers fuel width
  unfolding query_loop
  query_loop-Answers p u zero width w level left right l r a o b f m n =
      rw (none_left left right o f)
        (ends_meet width left right l r a o b (none_left left right o f) m n)
    where
      none_left : (j k : ℕ) → j ≤ k → k ≤ 0 → ltb j k ≡ false
      none_left j k o f = ground (arith, o, f)
  query_loop-Answers p u (suc fuel) width w level left right l r a o b f m n =
      elim (Bool-cases (ltb left right)) [
        | inr x ↦ rw x (ends_meet width left right l r a o b x m n)
        | inl x ↦ rw x (
            Returns-bind (left_step-Merged width left right l level a (ground (arith, x)) b m)
              (λ (l', left') (el, ml).
                Returns-bind (right_step-Merged width left right r level a (ground (arith, x)) b n)
                  (λ (r', right') (er, mr).
                    halved-Answers fuel width
                      (query_loop-Answers p u fuel (2 * width) (omega (arith, w))
                        (next-Level host nodes size width p w u level))
                      left right left' right' l' r' a b f x el er ml mr)))
      ]
