-- ===== src/Pruning/InBuckets.antt =====
-- Pruning an IN list: the bucket that is searched, and the keys by which its values are ordered.
use lakeql.Base.{
  Ordering, ◌≡◌, refl, inl, inr, Bool, true, false, List, [], ◌∷◌, Option, none, some, arith, Any,
  All, Bool-cases, get_elem?,
}
use lakeql.Base.Int.{ℤ, compare_ℤ}
use lakeql.Base.Search.{lower_bound}
use lakeql.Base.Order.{is_le, compare_text, compare_bool, IsOrder}
use lakeql.Base.Result.{Result, ok, err}
use lakeql.Expr.{Text, TimestampValue, Scalar, text, boolean, timestamp, CompareOp}
use lakeql.Scalars.{Host, js_order, timestamp_value_from_iso}
use lakeql.Evaluator.{SqlBoolean, compare_order, compare_scalars, in_values}
use lakeql.Pruning.Stats.{ColumnStats, is_stats_value, compare_values, same_comparable_type}
use lakeql.Pruning.InList.{
  same_value_type, stats_value_type, bucket, below_target, at_most, candidate_may_match,
  values_may_match,
}
use lakeql.Pruning.InSorted.{search_at_most}
use lakeql.Pruning.Bounds.{Agree, Placed}

module _ (host : Host) where
  -- A text that is no timestamp in ISO form.
  abbrev pub IsPlainText : Scalar → Type 0
  IsPlainText (text t) = timestamp_value_from_iso host t ≡ none
  IsPlainText v = Unit

  -- The values of the list agree with the bounds; for a text column the bounds and the texts of the
  -- list are no timestamps.
  abbrev pub InAgree : List Scalar → Scalar → Scalar → Type 0
  InAgree vs (text t) max =
      IsPlainText (text t)
      × IsPlainText max
      × All (λ x. IsPlainText x × Agree host x (text t) × Agree host x max) vs
  InAgree vs min max = All (λ x. Agree host x min × Agree host x max) vs

  -- The value that ends the loop of `inList`.
  abbrev pub Equal : Scalar → Scalar → Type 0
  Equal v x = compare_scalars host CompareOp.eq v x ≡ ok (some true)

  found_step :
      (v x : Scalar) (vs : List Scalar) (saw : Bool) (t : Result SqlBoolean)
      → compare_scalars host CompareOp.eq v x ≡ t
      → in_values host v (x ∷ vs) saw ≡ ok (some true)
      → ((saw' : Bool) → in_values host v vs saw' ≡ ok (some true) → Any (Equal v) vs)
      → Any (Equal v) (x ∷ vs)
  unfolding in_values
  found_step v x vs saw (err e) k h ih = absurd (ground arith)
  found_step v x vs saw (ok none) k h ih = inr (ih true (rw k at h))
  found_step v x vs saw (ok (some true)) k h ih = inl k
  found_step v x vs saw (ok (some false)) k h ih = inr (ih saw (rw k at h))

  pub found :
      (v : Scalar) (vs : List Scalar) (saw : Bool)
      → in_values host v vs saw ≡ ok (some true)
      → Any (Equal v) vs
  unfolding in_values
  found v [] saw h = absurd (ground arith)
  found v (x ∷ vs) saw h =
      found_step v x vs saw (compare_scalars host CompareOp.eq v x) refl h (λ saw'. found v vs saw')

  module _ (s : ColumnStats) where
    -- A value of the list between the bounds, in the bucket that is searched.
    abbrev pub Candidate : Scalar → Type 0
    Candidate x =
        (is_le (compare_values host s.min x) ≡ true)
        × (is_le (compare_values host x s.max) ≡ true)
        × (same_value_type (stats_value_type host x) (stats_value_type host s.min) ≡ true)

    in_bucket :
        (vs : List Scalar)
        → Any Candidate vs
        → Any
            (λ x.
              (is_le (compare_values host s.min x) ≡ true)
              × (is_le (compare_values host x s.max) ≡ true))
            (bucket host (stats_value_type host s.min) vs)
    unfolding bucket
    in_bucket [] h = h
    in_bucket (x ∷ vs) h =
        elim (Bool-cases
          (same_value_type (stats_value_type host x) (stats_value_type host s.min))) [
            | inl e ↦ rw e (elim h [ inl c ↦ inl (c.0, c.1) | inr t ↦ inr (in_bucket vs t) ])
            | inr e ↦ rw e (elim h [ inl c ↦ absurd (cc (c.2)) | inr t ↦ in_bucket vs t ])
          ]

    bucket-All :
        (P : Scalar → Type 0) (vs : List Scalar)
        → ((x : Scalar)
            → is_stats_value x ≡ true
            → same_value_type (stats_value_type host x) (stats_value_type host s.min) ≡ true
            → P x)
        → All (λ x. is_stats_value x ≡ true) vs
        → All P (bucket host (stats_value_type host s.min) vs)
    unfolding bucket
    bucket-All P [] f ks = tt
    bucket-All P (x ∷ vs) f ks =
        elim (Bool-cases
          (same_value_type (stats_value_type host x) (stats_value_type host s.min))) [
            | inl e ↦ rw e (f x ks.0 e, bucket-All P vs f ks.1)
            | inr e ↦ rw e (bucket-All P vs f ks.1)
          ]

    candidate_found :
        (ws : List Scalar)
        → at_most host (get_elem? ws (lower_bound (below_target host s.min) ws)) s.max ≡ true
        → candidate_may_match host ws s ≡ true
    unfolding candidate_may_match
    candidate_found [] h = refl
    candidate_found (w ∷ ws) h = elim (Bool-cases (same_comparable_type host s.min s.max)) [
      | inl e ↦ rw e h
      | inr e ↦ rw e
    ]

    module _ {A : Type 0} (cmp : A → A → Ordering) (o : IsOrder cmp) (key : Scalar → Option A) where
      pub by_kind :
          ((v w : Scalar) (a b : A)
            → key v ≡ some a
            → key w ≡ some b
            → compare_values host v w ≡ cmp a b)
          → (a : A) × (key s.min ≡ some a)
          → (b : A) × (key s.max ≡ some b)
          → ((x : Scalar)
              → is_stats_value x ≡ true
              → same_value_type (stats_value_type host x) (stats_value_type host s.min) ≡ true
              → (c : A) × (key x ≡ some c))
          → (vs : List Scalar) → All (λ x. is_stats_value x ≡ true) vs
          → Any Candidate vs
          → values_may_match host vs s ≡ true
      unfolding values_may_match
      by_kind by_key kmin kmax typed vs stats any = candidate_found _ (
          search_at_most host cmp o key by_key s.min s.max kmin kmax
            (bucket host (stats_value_type host s.min) vs)
            (bucket-All (λ x. (c : A) × (key x ≡ some c)) vs typed stats) (in_bucket vs any))

    -- An equal value is between the bounds.
    pub Placed-between :
        (v x : Scalar)
        → Placed host s v x
        → Equal v x
        → (is_le (compare_values host s.min x) ≡ true)
          × (is_le (compare_values host x s.max) ≡ true)
    unfolding compare_order
    Placed-between v x p e =
        ground (arith, p.value_first CompareOp.eq, p.from_min, p.from_max, p.max-flip)

  abbrev pub text_key : Scalar → Option Text
  text_key (text t) = elim (timestamp_value_from_iso host t) [ none ↦ some t | some u ↦ none ]
  text_key v = none

  abbrev pub bool_key : Scalar → Option Bool
  bool_key (boolean b) = some b
  bool_key v = none

  abbrev nanos_of : Option TimestampValue → Option ℤ
  nanos_of none = none
  nanos_of (some t) = some t.epoch_nanoseconds

  abbrev pub time_key : Scalar → Option ℤ
  time_key (timestamp t) = some t.epoch_nanoseconds
  time_key (text t) = nanos_of (timestamp_value_from_iso host t)
  time_key v = none

  pub text_by_key :
      (v w : Scalar) (a b : Text)
      → text_key v ≡ some a
      → text_key w ≡ some b
      → compare_values host v w ≡ compare_text a b
  unfolding compare_values js_order
  text_by_key (text s) (text t) a b p q = ground arith
  text_by_key _ _ a b p q = absurd (cc)

  pub time_by_key :
      (v w : Scalar) (a b : ℤ)
      → time_key v ≡ some a
      → time_key w ≡ some b
      → compare_values host v w ≡ compare_ℤ a b
  unfolding compare_values
  time_by_key (timestamp s) (timestamp t) a b p q = ground arith
  time_by_key (timestamp s) (text t) a b p q = ground arith
  time_by_key (text s) (timestamp t) a b p q = ground arith
  time_by_key (text s) (text t) a b p q = ground arith
  time_by_key _ _ a b p q = absurd (cc)

  pub bool_by_key :
      (v w : Scalar) (a b : Bool)
      → bool_key v ≡ some a
      → bool_key w ≡ some b
      → compare_values host v w ≡ compare_bool a b
  unfolding compare_values js_order
  bool_by_key (boolean s) (boolean t) a b p q = ground arith
  bool_by_key _ _ a b p q = absurd (cc)
