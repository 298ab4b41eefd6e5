-- ===== src/Pruning/InSorted.antt =====
-- The sorted values of an IN list: among values that one order compares, the binary search for the
-- minimum finds a value that is at most the maximum if the list holds any value between the two.
use lakeql.Base.{
  ℕ, zero, suc, Ordering, ◌≡◌, ◌⊎◌, inl, inr, true, false, List, [], ◌∷◌, Option, some, arith, All,
  Any, Bool-cases, get_elem?,
}
use lakeql.Base.Order.{is_le, IsOrder}
use lakeql.Base.Search.{IsSplit, below_at, prefix_length, lower_bound, lower_bound-eq-prefix_length}
use lakeql.Expr.{Scalar}
use lakeql.Scalars.{Host}
use lakeql.Pruning.Stats.{compare_values}
use lakeql.Pruning.InList.{insert_value, sort_values, below_target, at_most}

module _ (host : Host) where
  abbrev Le : Scalar → Scalar → Type 0
  Le v w = is_le (compare_values host v w) ≡ true

  -- Every value is at most each value behind it.
  abbrev IsSorted : List Scalar → Type 0
  IsSorted [] = Unit
  IsSorted (v ∷ vs) = All (Le v) vs × IsSorted vs

  All-insert :
      (P : Scalar → Type 0) (v : Scalar) (ws : List Scalar)
      → P v
      → All P ws
      → All P (insert_value host v ws)
  unfolding insert_value
  All-insert P v [] p ps = (p, tt)
  All-insert P v (w ∷ ws) p ps = elim (Bool-cases (is_le (compare_values host v w))) [
    | inl e ↦ rw e (p, ps)
    | inr e ↦ rw e (ps.0, All-insert P v ws p ps.1)
  ]

  pub All-sort : (P : Scalar → Type 0) (vs : List Scalar) → All P vs → All P (sort_values host vs)
  unfolding sort_values
  All-sort P [] ps = tt
  All-sort P (v ∷ vs) ps = All-insert P v (sort_values host vs) ps.0 (All-sort P vs ps.1)

  Any-insert :
      (P : Scalar → Type 0) (v : Scalar) (ws : List Scalar)
      → P v ⊎ Any P ws
      → Any P (insert_value host v ws)
  unfolding insert_value
  Any-insert P v [] h = h
  Any-insert P v (w ∷ ws) h = elim (Bool-cases (is_le (compare_values host v w))) [
    | inl e ↦ rw e h
    | inr e ↦ rw e (elim h [
      | inl p ↦ inr (Any-insert P v ws (inl p))
      | inr (inl p) ↦ inl p
      | inr (inr p) ↦ inr (Any-insert P v ws (inr p))
    ])
  ]

  pub Any-sort : (P : Scalar → Type 0) (vs : List Scalar) → Any P vs → Any P (sort_values host vs)
  unfolding sort_values
  Any-sort P [] h = h
  Any-sort P (v ∷ vs) (inl p) = Any-insert P v (sort_values host vs) (inl p)
  Any-sort P (v ∷ vs) (inr p) = Any-insert P v (sort_values host vs) (inr (Any-sort P vs p))

  module _ {A : Type 0} (cmp : A → A → Ordering) (o : IsOrder cmp) (key : Scalar → Option A)
      (by_key : (v w : Scalar) (a b : A)
        → key v ≡ some a
        → key w ≡ some b
        → compare_values host v w ≡ cmp a b) where
    abbrev pub Keyed : Scalar → Type 0
    Keyed v = (a : A) × (key v ≡ some a)

    Le_trans : (u v w : Scalar) → Keyed u → Keyed v → Keyed w → Le u v → Le v w → Le u w
    Le_trans u v w (a, p) (b, q) (c, r) h k =
        ground (arith, by_key u v a b p q, by_key v w b c q r, by_key u w a c p r, o.le_trans a b c)

    Le_total : (v w : Scalar) → Keyed v → Keyed w → is_le (compare_values host v w) ≡ false → Le w v
    Le_total v w (a, p) (b, q) h =
        ground (arith, by_key v w a b p q, by_key w v b a q p, o.cmp-flip a b)

    All-Le :
        (u v : Scalar) (ws : List Scalar)
        → Keyed u
        → Keyed v
        → All Keyed ws
        → Le u v
        → All (Le v) ws
        → All (Le u) ws
    All-Le u v [] ku kv ks h hs = tt
    All-Le u v (w ∷ ws) ku kv ks h hs =
        (Le_trans u v w ku kv ks.0 h hs.0, All-Le u v ws ku kv ks.1 h hs.1)

    insert-IsSorted :
        (v : Scalar) (ws : List Scalar)
        → Keyed v
        → All Keyed ws
        → IsSorted ws
        → IsSorted (insert_value host v ws)
    unfolding insert_value
    insert-IsSorted v [] kv ks s = (tt, tt)
    insert-IsSorted v (w ∷ ws) kv ks s = elim (Bool-cases (is_le (compare_values host v w))) [
      | inl e ↦ rw e ((e, All-Le v w ws kv ks.0 ks.1 e s.0), s)
      | inr e ↦
          rw e
            (All-insert (Le w) v ws (Le_total v w kv ks.0 e) s.0, insert-IsSorted v ws kv ks.1 s.1)
    ]

    pub sort-IsSorted : (vs : List Scalar) → All Keyed vs → IsSorted (sort_values host vs)
    unfolding sort_values
    sort-IsSorted [] ks = tt
    sort-IsSorted (v ∷ vs) ks =
        insert-IsSorted v (sort_values host vs) ks.0 (All-sort Keyed vs ks.1)
          (sort-IsSorted vs ks.1)

    module _ (min max : Scalar) (kmin : Keyed min) (kmax : Keyed max) where
      below_down :
          (v w : Scalar)
          → Keyed v
          → Keyed w
          → Le v w
          → below_target host min w ≡ true
          → below_target host min v ≡ true
      unfolding below_target
      below_down v w (a, p) (b, q) h k =
          let (m, r) = kmin in
          ground (
            arith,
            by_key v w a b p q,
            by_key w min b m q r,
            by_key v min a m p r,
            o.le_trans m a b,
            o.cmp-flip a m,
            o.cmp-flip b m,
          )

      -- What stands behind a value that is not below the minimum is not below it either.
      none_below :
          (v : Scalar) (ws : List Scalar)
          → Keyed v
          → All Keyed ws
          → All (Le v) ws
          → (j : ℕ) → below_at (below_target host min) ws j ≡ true
          → below_target host min v ≡ true
      unfolding below_at
      none_below v [] kv ks hs j t = absurd (cc)
      none_below v (w ∷ ws) kv ks hs zero t = below_down v w kv ks.0 hs.0 t
      none_below v (w ∷ ws) kv ks hs (suc j) t = none_below v ws kv ks.1 hs.1 j t

      sorted-IsSplit :
          (ws : List Scalar) → All Keyed ws → IsSorted ws → IsSplit (below_target host min) ws
      unfolding below_at
      sorted-IsSplit [] ks s i j h t = absurd (cc)
      sorted-IsSplit (w ∷ ws) ks s zero zero h t = t
      sorted-IsSplit (w ∷ ws) ks s zero (suc j) h t = none_below w ws ks.0 ks.1 s.0 j t
      sorted-IsSplit (w ∷ ws) ks s (suc i) zero h t = absurd (omega arith)
      sorted-IsSplit (w ∷ ws) ks s (suc i) (suc j) h t =
          sorted-IsSplit ws ks.1 s.1 i j (omega arith) t

      abbrev pub Between : Scalar → Type 0
      Between v = Le min v × Le v max

      head_at_most :
          (v : Scalar) (ws : List Scalar)
          → Keyed v
          → All Keyed ws
          → All (Le v) ws
          → Any Between ws
          → Le v max
      head_at_most v [] kv ks hs h = elim h [ ]
      head_at_most v (w ∷ ws) kv ks hs (inl b) = Le_trans v w max kv ks.0 kmax hs.0 b.1
      head_at_most v (w ∷ ws) kv ks hs (inr h) = head_at_most v ws kv ks.1 hs.1 h

      prefix_at_most :
          (ws : List Scalar)
          → All Keyed ws
          → IsSorted ws
          → Any Between ws
          → at_most host (get_elem? ws (prefix_length (below_target host min) ws)) max ≡ true
      unfolding prefix_length at_most
      prefix_at_most [] ks s h = elim h [ ]
      prefix_at_most (w ∷ ws) ks s h = elim (Bool-cases (below_target host min w)) [
        | inl e ↦ rw e (prefix_at_most ws ks.1 s.1 (later h e))
        | inr e ↦ rw e (first h)
      ]
        where
          later : Between w ⊎ Any Between ws → below_target host min w ≡ true → Any Between ws
          later (inr q) e = q
          later (inl b) e = absurd (not_below b.0 e)
            where
              not_below : Le min w → below_target host min w ≡ true → ⊥
              not_below l t = clash ks.0 kmin
                where
                  clash : Keyed w → Keyed min → ⊥
                  clash (a, p) (m, r) =
                      unfold below_target in
                      ground (arith, by_key w min a m p r, by_key min w m a r p, o.cmp-flip a m)

          first : Between w ⊎ Any Between ws → Le w max
          first (inl b) = b.1
          first (inr q) = head_at_most w ws ks.0 ks.1 s.0 q

      pub search_at_most :
          (vs : List Scalar)
          → All Keyed vs
          → Any Between vs
          → at_most host
              (get_elem?
                (sort_values host vs)
                (lower_bound (below_target host min) (sort_values host vs)))
              max
            ≡ true
      search_at_most vs ks h =
          let ws = sort_values host vs in
          let keyed : All Keyed ws = All-sort Keyed vs ks in
          let sorted : IsSorted ws = sort-IsSorted vs ks in
          rw
            (lower_bound-eq-prefix_length (below_target host min) ws
              (sorted-IsSplit ws keyed sorted))
            (prefix_at_most ws keyed sorted (Any-sort Between vs h))
