-- ===== src/Pruning/InSound.antt =====
-- Pruning an IN list, for a value of the column that the statistics describe.
use lakeql.Base.{
  Ordering, ◌≡◌, refl, inl, inr, Bool, true, false, List, [], ◌∷◌, Option, none, some, arith, Any,
  All,
}
use lakeql.Base.Int.{ℤ, compare_ℤ}
use lakeql.Base.Order.{
  compare_text, compare_bool, compare_text-IsOrder, compare_bool-IsOrder, compare_ℤ-IsOrder,
  IsOrder,
}
use lakeql.Base.Result.{ok}
use lakeql.Expr.{
  Text, finite, TimestampValue, Scalar, text, number, boolean, bigint, timestamp, CompareOp,
}
use lakeql.Scalars.{Host, timestamp_value_from_iso}
use lakeql.Evaluator.{is_null, compare_scalars, in_values}
use lakeql.Pruning.Stats.{ColumnStats, is_stats_value, compare_values}
use lakeql.Pruning.InList.{ValueType, same_value_type, stats_value_type, values_may_match}
use lakeql.Pruning.Bounds.{Within, Agree, Placed, exact_of}
use lakeql.Pruning.Place.{place, compare_values-exact, exact_literal}
use lakeql.Pruning.Leaves.{not_null_left}
use lakeql.Pruning.InBuckets.{
  IsPlainText, InAgree, Equal, found, Candidate, by_kind, Placed-between, text_key, bool_key,
  time_key, text_by_key, time_by_key, bool_by_key,
}

module _ (host : Host) where
  module _ (s : ColumnStats) where
    -- From the equal value in the list to the candidate in the bucket.
    candidates :
        (P : Scalar → Type 0) (v : Scalar)
        → ((x : Scalar)
            → is_stats_value x ≡ true
            → P x
            → Equal host v x
            → Placed host s v x
              × (same_value_type (stats_value_type host x) (stats_value_type host s.min) ≡ true))
        → (vs : List Scalar) → All (λ x. is_stats_value x ≡ true) vs
        → All P vs
        → Any (Equal host v) vs
        → Any (Candidate host s) vs
    candidates P v f [] ks ps h = h
    candidates P v f (x ∷ vs) ks ps (inl e) =
        let (p, t) = f x ks.0 ps.0 e in let b = Placed-between host s v x p e in inl (b.0, b.1, t)
    candidates P v f (x ∷ vs) ks ps (inr h) = inr (candidates P v f vs ks.1 ps.1 h)

    module _ (v : Scalar) (w : Within s v) (vs : List Scalar) where
      in_texts :
          (a b c : Text)
          → s.min ≡ text a
          → s.max ≡ text b
          → v ≡ text c
          → All (λ x. is_stats_value x ≡ true) vs
          → InAgree host vs (text a) (text b)
          → Any (Equal host v) vs
          → values_may_match host vs s ≡ true
      unfolding stats_value_type same_value_type compare_scalars
      in_texts a b c em en ev ks (pa, pb, ag) h =
          by_kind host s compare_text compare_text-IsOrder (text_key host) (text_by_key host)
            (a, rw em (ground arith)) (b, rw en (ground arith)) typed vs ks
            (candidates (λ x. IsPlainText host x × Agree host x (text a) × Agree host x (text b)) v
              place_it vs ks ag h)
        where
          typed :
              (x : Scalar)
              → is_stats_value x ≡ true
              → same_value_type (stats_value_type host x) (stats_value_type host s.min) ≡ true
              → (d : Text) × (text_key host x ≡ some d)
          typed (text d) u t = (d, ground arith)
          typed _ u t = absurd (ground arith)

          place_it :
              (x : Scalar)
              → is_stats_value x ≡ true
              → IsPlainText host x × Agree host x (text a) × Agree host x (text b)
              → Equal host v x
              → Placed host s v x
                × (same_value_type (stats_value_type host x) (stats_value_type host s.min) ≡ true)
          place_it (text d) u (px, p, q) e = (
            place host s CompareOp.eq (some true) v (text d) w
                (not_null_left host CompareOp.eq v (text d) e) u e (rw em p) (rw en q),
            ground arith,
          )
          place_it (timestamp d) u (px, p, q) e = absurd p
          place_it _ u ag e = absurd (ground arith)

      -- For the other types the values of the list need only agree with the bounds.
      module _ (n : is_null v ≡ false) where
        in_others :
            {A : Type 0} (cmp : A → A → Ordering) (o : IsOrder cmp) (key : Scalar → Option A)
            → ((x y : Scalar) (a b : A)
                → key x ≡ some a
                → key y ≡ some b
                → compare_values host x y ≡ cmp a b)
            → (a b : A) → key s.min ≡ some a
            → key s.max ≡ some b
            → ((x : Scalar)
                → is_stats_value x ≡ true
                → same_value_type (stats_value_type host x) (stats_value_type host s.min) ≡ true
                → (c : A) × (key x ≡ some c))
            → ((x : Scalar)
                → is_stats_value x ≡ true
                → Equal host v x
                → same_value_type (stats_value_type host x) (stats_value_type host s.min) ≡ true)
            → All (λ x. is_stats_value x ≡ true) vs
            → All (λ x. Agree host x s.min × Agree host x s.max) vs
            → Any (Equal host v) vs
            → values_may_match host vs s ≡ true
        in_others cmp o key by_key a b em en typed same ks ag h =
            by_kind host s cmp o key by_key (a, em) (b, en) typed vs ks
              (candidates (λ x. Agree host x s.min × Agree host x s.max) v
                (λ x u p e. (place host s CompareOp.eq (some true) v x w n u e p.0 p.1, same x u e))
                vs ks ag h)

        in_numbers :
            (a b c : ℤ)
            → exact_of s.min ≡ some a
            → exact_of s.max ≡ some b
            → exact_of v ≡ some c
            → All (λ x. is_stats_value x ≡ true) vs
            → All (λ x. Agree host x s.min × Agree host x s.max) vs
            → Any (Equal host v) vs
            → values_may_match host vs s ≡ true
        unfolding stats_value_type same_value_type is_stats_value
        in_numbers a b c em en ev ks ag h =
            in_others compare_ℤ compare_ℤ-IsOrder exact_of (compare_values-exact host) a b em en
              typed same ks ag h
          where
            min_type : stats_value_type host s.min ≡ ValueType.number_type
            min_type = of_min s.min em
              where
                of_min :
                    (m : Scalar)
                    → exact_of m ≡ some a
                    → stats_value_type host m ≡ ValueType.number_type
                of_min (number x) e = refl
                of_min (bigint x) e = refl
                of_min _ e = absurd (cc)

            typed :
                (x : Scalar)
                → is_stats_value x ≡ true
                → same_value_type (stats_value_type host x) (stats_value_type host s.min) ≡ true
                → (d : ℤ) × (exact_of x ≡ some d)
            typed (number (finite k)) u t = (k, refl)
            typed (bigint k) u t = (_, refl)
            typed x u t = absurd (ground (arith, min_type))

            same :
                (x : Scalar)
                → is_stats_value x ≡ true
                → Equal host v x
                → same_value_type (stats_value_type host x) (stats_value_type host s.min) ≡ true
            same x u e =
                let (d, ex) = exact_literal host s CompareOp.eq (some true) v c ev x u e in
                number_typed x d ex
              where
                number_typed :
                    (x : Scalar) (d : ℤ)
                    → exact_of x ≡ some d
                    → same_value_type (stats_value_type host x) (stats_value_type host s.min) ≡ true
                number_typed (number k) d e' = rw min_type
                number_typed (bigint k) d e' = rw min_type
                number_typed _ d e' = absurd (cc)

        in_booleans :
            (a b c : Bool)
            → s.min ≡ boolean a
            → s.max ≡ boolean b
            → v ≡ boolean c
            → All (λ x. is_stats_value x ≡ true) vs
            → All (λ x. Agree host x s.min × Agree host x s.max) vs
            → Any (Equal host v) vs
            → values_may_match host vs s ≡ true
        unfolding stats_value_type same_value_type is_stats_value compare_scalars
        in_booleans a b c em en ev ks ag h =
            in_others compare_bool compare_bool-IsOrder (bool_key host) (bool_by_key host) a b
              (rw em) (rw en) typed same ks ag h
          where
            typed :
                (x : Scalar)
                → is_stats_value x ≡ true
                → same_value_type (stats_value_type host x) (stats_value_type host s.min) ≡ true
                → (d : Bool) × (bool_key host x ≡ some d)
            typed (boolean d) u t = (d, refl)
            typed _ u t = absurd (ground arith)

            same :
                (x : Scalar)
                → is_stats_value x ≡ true
                → Equal host v x
                → same_value_type (stats_value_type host x) (stats_value_type host s.min) ≡ true
            same (boolean d) u e = rw em
            same _ u e = absurd (ground arith)

        in_timestamps :
            (a b c : TimestampValue)
            → s.min ≡ timestamp a
            → s.max ≡ timestamp b
            → v ≡ timestamp c
            → All (λ x. is_stats_value x ≡ true) vs
            → All (λ x. Agree host x s.min × Agree host x s.max) vs
            → Any (Equal host v) vs
            → values_may_match host vs s ≡ true
        unfolding stats_value_type same_value_type is_stats_value compare_scalars
        in_timestamps a b c em en ev ks ag h =
            in_others compare_ℤ compare_ℤ-IsOrder (time_key host) (time_by_key host)
              a.epoch_nanoseconds b.epoch_nanoseconds (rw em) (rw en) typed same ks ag h
          where
            typed :
                (x : Scalar)
                → is_stats_value x ≡ true
                → same_value_type (stats_value_type host x) (stats_value_type host s.min) ≡ true
                → (d : ℤ) × (time_key host x ≡ some d)
            typed (timestamp d) u t = (d.epoch_nanoseconds, refl)
            typed (text t') u t = parsed (timestamp_value_from_iso host t') refl
              where
                parsed :
                    (i : Option TimestampValue)
                    → timestamp_value_from_iso host t' ≡ i
                    → (d : ℤ) × (time_key host (text t') ≡ some d)
                parsed (some i) e = (i.epoch_nanoseconds, rw e)
                parsed none e = absurd (ground arith)
            typed _ u t = absurd (ground arith)

            same :
                (x : Scalar)
                → is_stats_value x ≡ true
                → Equal host v x
                → same_value_type (stats_value_type host x) (stats_value_type host s.min) ≡ true
            same (timestamp d) u e = rw em
            same (text d) u e = ground arith
            same _ u e = absurd (ground arith)

  Agree-of :
      (vs : List Scalar) (min max : Scalar)
      → ((t : Text) → min ≡ text t → ⊥)
      → InAgree host vs min max
      → All (λ x. Agree host x min × Agree host x max) vs
  Agree-of vs (text t) max not_text h = absurd (not_text t refl)
  Agree-of vs _ max not_text h = h

  pub values_may_match_sound :
      (s : ColumnStats) (v : Scalar) (vs : List Scalar) (saw : Bool)
      → Within s v
      → is_null v ≡ false
      → All (λ x. is_stats_value x ≡ true) vs
      → InAgree host vs s.min s.max
      → in_values host v vs saw ≡ ok (some true)
      → values_may_match host vs s ≡ true
  values_may_match_sound s _ vs saw (Within.nulls e) n ks ag h = absurd (cc)
  values_may_match_sound s v vs saw (Within.texts a b c em en lo hi) n ks ag h =
      in_texts s (text c) (Within.texts a b c em en lo hi) vs a b c em en refl ks
        (rw (em, en) at ag) (found host (text c) vs saw h)
  values_may_match_sound s _ vs saw (Within.numbers {v} a b c em en ev lo hi) n ks ag h =
      in_numbers s v (Within.numbers a b c em en ev lo hi) vs n a b c em en ev ks
        (Agree-of vs s.min s.max (λ t e. no_text t (rw e at em)) ag) (found host v vs saw h)
    where
      no_text : (t : Text) → exact_of (text t) ≡ some a → ⊥
      no_text t e = cc
  values_may_match_sound s _ vs saw (Within.booleans a b c em en lo hi) n ks ag h =
      in_booleans s (boolean c) (Within.booleans a b c em en lo hi) vs n a b c em en refl ks
        (Agree-of vs s.min s.max (λ t e. no_text t e) ag) (found host (boolean c) vs saw h)
    where
      no_text : (t : Text) → s.min ≡ text t → ⊥
      no_text t e = cc
  values_may_match_sound s _ vs saw (Within.timestamps a b c em en lo hi) n ks ag h =
      in_timestamps s (timestamp c) (Within.timestamps a b c em en lo hi) vs n a b c em en refl ks
        (Agree-of vs s.min s.max (λ t e. no_text t e) ag) (found host (timestamp c) vs saw h)
    where
      no_text : (t : Text) → s.min ≡ text t → ⊥
      no_text t e = cc
