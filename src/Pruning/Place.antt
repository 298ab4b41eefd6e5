-- ===== src/Pruning/Place.antt =====
-- A literal that the evaluator can compare with a value of the column is placed against the bounds.
use Prim.Native.Nat.{compare}
use native.Mathlib.Decide.{dec_lt}
use lakeql.Base.{ℕ, ◌+◌, ◌*◌, ◌≤◌, ◌<◌, ◌≡◌, refl, ap, Bool, true, false, Option, none, some, arith}
use lakeql.Base.Int.{ℤ, pos_part, neg_part, scale_ℤ, compare_ℤ}
use lakeql.Base.Order.{
  is_le, compare_text, compare_bool, compare_text-IsOrder, compare_bool-IsOrder, compare_ℤ-IsOrder,
}
use lakeql.Base.Result.{ok}
use lakeql.Expr.{
  Text, finite, TimestampValue, Scalar, text, number, boolean, bigint, timestamp, CompareOp,
}
use lakeql.Scalars.{Host, units_per_one, units_per_one_pos, js_order, timestamp_value_from_iso}
use lakeql.Evaluator.{SqlBoolean, is_null, compare_order, compare_scalars}
use lakeql.Pruning.Stats.{ColumnStats, is_stats_value, compare_values}
use lakeql.Pruning.Bounds.{exact_of, Within, nulls, texts, numbers, booleans, timestamps}
use lakeql.Pruning.Bounds.{Agree, Placed, Placed-by}

scale_ℤ_parts :
    (u : ℕ) (a : ℤ)
    → pos_part (scale_ℤ u a) + u * neg_part a ≡ neg_part (scale_ℤ u a) + u * pos_part a
unfolding scale_ℤ
scale_ℤ_parts u a = ground arith

mul_lt : (u a b : ℕ) → a < b → u * a + u ≤ u * b
mul_lt u a b h = grind arith

compare-mul : (u a b p q : ℕ) → 0 < u → p + u * b ≡ q + u * a → compare p q ≡ compare a b
compare-mul u a b p q h e = elim (dec_lt a b) [
  | yes l ↦ ground (arith, mul_lt u a b l)
  | no m ↦ elim (dec_lt b a) [
    | yes l ↦ ground (arith, mul_lt u b a l)
    | no n ↦
        let same : a ≡ b = omega arith in
        let equal : p ≡ q = omega (arith, ap (λ (t : ℕ). u * t) same) in ground arith
  ]
]

compare-scale : (u : ℕ) (m n : ℤ) → 0 < u → compare_ℤ (scale_ℤ u m) (scale_ℤ u n) ≡ compare_ℤ m n
compare-scale u m n h =
    compare-mul u (pos_part m + neg_part n) (pos_part n + neg_part m) _ _ h
      (omega (arith, scale_ℤ_parts u m, scale_ℤ_parts u n))

module _ (host : Host) where
  js_order-exact :
      (v x : Scalar) (c d : ℤ)
      → exact_of v ≡ some c
      → exact_of x ≡ some d
      → js_order host v x ≡ compare_ℤ c d
  unfolding js_order
  js_order-exact (number (finite k)) (number (finite l)) c d p q = ground arith
  js_order-exact (number (finite k)) (bigint n) c d p q = ground arith
  js_order-exact (bigint m) (number (finite l)) c d p q = ground arith
  js_order-exact (bigint m) (bigint n) c d p q =
      ground (arith, compare-scale units_per_one m n units_per_one_pos)
  js_order-exact _ _ c d p q = absurd (cc)

  pub compare_values-exact :
      (v x : Scalar) (c d : ℤ)
      → exact_of v ≡ some c
      → exact_of x ≡ some d
      → compare_values host v x ≡ compare_ℤ c d
  unfolding compare_values
  compare_values-exact (number (finite k)) (number l) c d p q = js_order-exact _ _ c d p q
  compare_values-exact (number (finite k)) (bigint n) c d p q = js_order-exact _ _ c d p q
  compare_values-exact (bigint m) (number l) c d p q = js_order-exact _ _ c d p q
  compare_values-exact (bigint m) (bigint n) c d p q = js_order-exact _ _ c d p q
  compare_values-exact _ _ c d p q = absurd (cc)

  compare_scalars-exact :
      (v x : Scalar) (c d : ℤ)
      → exact_of v ≡ some c
      → exact_of x ≡ some d
      → (op : CompareOp)
      → compare_scalars host op v x ≡ ok (some (compare_order op (compare_ℤ c d)))
  unfolding compare_scalars
  compare_scalars-exact (number (finite k)) (number l) c d p q op =
      rw (← js_order-exact (number (finite k)) (number l) c d p q)
  compare_scalars-exact (number (finite k)) (bigint n) c d p q op =
      rw (← js_order-exact (number (finite k)) (bigint n) c d p q)
  compare_scalars-exact (bigint m) (number l) c d p q op =
      rw (← js_order-exact (bigint m) (number l) c d p q)
  compare_scalars-exact (bigint m) (bigint n) c d p q op =
      rw (← js_order-exact (bigint m) (bigint n) c d p q)
  compare_scalars-exact _ _ c d p q op = absurd (cc)

  module _ (s : ColumnStats) (op : CompareOp) (r : SqlBoolean) where
    place_text :
        (a b c : Text)
        → s.min ≡ text a
        → s.max ≡ text b
        → is_le (compare_text a c) ≡ true
        → is_le (compare_text c b) ≡ true
        → (x : Scalar) → is_stats_value x ≡ true
        → compare_scalars host op (text c) x ≡ ok r
        → Agree host x s.min
        → Agree host x s.max
        → Placed host s (text c) x
    unfolding compare_scalars compare_values is_stats_value js_order
    place_text a b c em en lo hi (text d) u h p q =
        Placed-by host compare_text compare_text-IsOrder a b c d s (text c) (text d) lo hi
          (λ op'. refl) (λ op'. refl) (ground arith) (ground arith) (ground arith) (ground arith)
    place_text a b c em en lo hi (timestamp t) u h p q = absurd (rw em at p)
    place_text a b c em en lo hi _ u h p q = absurd (ground arith)

    place_number :
        {v : Scalar} (a b c : ℤ)
        → exact_of s.min ≡ some a
        → exact_of s.max ≡ some b
        → exact_of v ≡ some c
        → is_le (compare_ℤ a c) ≡ true
        → is_le (compare_ℤ c b) ≡ true
        → (x : Scalar) (d : ℤ) → exact_of x ≡ some d
        → Placed host s v x
    place_number {v} a b c em en ev lo hi x d ex =
        Placed-by host compare_ℤ compare_ℤ-IsOrder a b c d s v x lo hi
          (compare_scalars-exact v x c d ev ex) (compare_scalars-exact x v d c ex ev)
          (compare_values-exact x s.min d a ex em) (compare_values-exact s.min x a d em ex)
          (compare_values-exact x s.max d b ex en) (compare_values-exact s.max x b d en ex)

    -- A usable literal that the evaluator compares with a number is a number.
    pub exact_literal :
        (v : Scalar) (c : ℤ)
        → exact_of v ≡ some c
        → (x : Scalar) → is_stats_value x ≡ true
        → compare_scalars host op v x ≡ ok r
        → (d : ℤ) × (exact_of x ≡ some d)
    unfolding compare_scalars is_stats_value
    exact_literal v c e (number (finite k)) u h = (k, refl)
    exact_literal v c e (bigint n) u h = (scale_ℤ units_per_one n, refl)
    exact_literal (number k) c e (text t) u h = absurd (ground arith)
    exact_literal (bigint k) c e (text t) u h = absurd (ground arith)
    exact_literal (number k) c e (boolean t) u h = absurd (ground arith)
    exact_literal (bigint k) c e (boolean t) u h = absurd (ground arith)
    exact_literal (number k) c e (timestamp t) u h = absurd (ground arith)
    exact_literal (bigint k) c e (timestamp t) u h = absurd (ground arith)
    exact_literal v c e x u h = absurd (ground arith)

    place_boolean :
        (a b c : Bool)
        → s.min ≡ boolean a
        → s.max ≡ boolean b
        → is_le (compare_bool a c) ≡ true
        → is_le (compare_bool c b) ≡ true
        → (x : Scalar) → is_stats_value x ≡ true
        → compare_scalars host op (boolean c) x ≡ ok r
        → Placed host s (boolean c) x
    unfolding compare_scalars compare_values is_stats_value js_order
    place_boolean a b c em en lo hi (boolean d) u h =
        Placed-by host compare_bool compare_bool-IsOrder a b c d s (boolean c) (boolean d) lo hi
          (λ op'. refl) (λ op'. refl) (rw em) (rw em) (rw en) (rw en)
    place_boolean a b c em en lo hi _ u h = absurd (ground arith)

    place_timestamp :
        (a b c : TimestampValue)
        → s.min ≡ timestamp a
        → s.max ≡ timestamp b
        → is_le (compare_ℤ a.epoch_nanoseconds c.epoch_nanoseconds) ≡ true
        → is_le (compare_ℤ c.epoch_nanoseconds b.epoch_nanoseconds) ≡ true
        → (x : Scalar) → is_stats_value x ≡ true
        → compare_scalars host op (timestamp c) x ≡ ok r
        → Placed host s (timestamp c) x
    unfolding compare_scalars compare_values is_stats_value js_order
    place_timestamp a b c em en lo hi (timestamp d) u h =
        Placed-by host compare_ℤ compare_ℤ-IsOrder a.epoch_nanoseconds b.epoch_nanoseconds
          c.epoch_nanoseconds d.epoch_nanoseconds s (timestamp c) (timestamp d) lo hi (λ op'. refl)
          (λ op'. refl) (rw em) (rw em) (rw en) (rw en)
    place_timestamp a b c em en lo hi (text t) u h = iso (timestamp_value_from_iso host t) refl
      where
        iso :
            (i : Option TimestampValue)
            → timestamp_value_from_iso host t ≡ i
            → Placed host s (timestamp c) (text t)
        iso none e = absurd (ground arith)
        iso (some d) e =
            Placed-by host compare_ℤ compare_ℤ-IsOrder a.epoch_nanoseconds b.epoch_nanoseconds
              c.epoch_nanoseconds d.epoch_nanoseconds s (timestamp c) (text t) lo hi
              (λ op'. ground arith) (λ op'. ground arith) (ground arith) (ground arith)
              (ground arith) (ground arith)
    place_timestamp a b c em en lo hi _ u h = absurd (ground arith)

    pub place :
        (v x : Scalar)
        → Within s v
        → is_null v ≡ false
        → is_stats_value x ≡ true
        → compare_scalars host op v x ≡ ok r
        → Agree host x s.min
        → Agree host x s.max
        → Placed host s v x
    place _ x (nulls e) n u h p q = absurd (cc)
    place _ x (texts a b c em en lo hi) n u h p q = place_text a b c em en lo hi x u h p q
    place _ x (numbers {v} a b c em en ev lo hi) n u h p q =
        let (d, ex) = exact_literal v c ev x u h in place_number a b c em en ev lo hi x d ex
    place _ x (booleans a b c em en lo hi) n u h p q = place_boolean a b c em en lo hi x u h
    place _ x (timestamps a b c em en lo hi) n u h p q = place_timestamp a b c em en lo hi x u h
